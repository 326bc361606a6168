-- ===== src/Metadata/Finalizers.antt =====
-- The two operations on finalizers of internal/utils/kubernetes/metadata.go.
use mathlib.Core.Path.{subst}
use gateway_operator.Prelude.{
  sym, ◌∙◌, String, ◌≡◌, ◌↔◌, refl, Bool, true, false, not, List, [], ◌∷◌, ◌++◌, ◌==◌, string_eq,
  eq_iff, eq_refl, any_of, any_of-append, filter_if, if◌then◌else◌, All, arith, Bool-cases, inl,
  inr, ap,
}
use gateway_operator.Api.Meta.{ObjectMeta}
use gateway_operator.Metadata.{
  add_finalizers, ensure_finalizers_in_metadata, remove_finalizer_in_metadata,
}

abbrev pub contains : String → List String → Bool
contains f = any_of (λ g. g == f)

add_finalizers_nil :
    (have : List String) (added : Bool) → add_finalizers [] have added ≡ (have, added)
unfolding add_finalizers
add_finalizers_nil have added = refl

module _ (f : String) (wanted have : List String) (added : Bool) where
  add_finalizers_old :
      contains f have ≡ true
      → add_finalizers (f ∷ wanted) have added ≡ add_finalizers wanted have added
  unfolding add_finalizers
  add_finalizers_old h = ground arith

  add_finalizers_new :
      contains f have ≡ false
      → add_finalizers (f ∷ wanted) have added ≡ add_finalizers wanted (have ++ f ∷ []) true
  unfolding add_finalizers
  add_finalizers_new h = ground arith

contains-add_finalizers :
    (g : String) (wanted have : List String) (added : Bool)
    → contains g have ≡ true
    → contains g (add_finalizers wanted have added).0 ≡ true
contains-add_finalizers g [] have added h = rw add_finalizers_nil h
contains-add_finalizers g (f ∷ wanted) have added h = elim (Bool-cases (contains f have)) [
  | inl old ↦
      rw (add_finalizers_old f wanted have added old)
        (contains-add_finalizers g wanted have added h)
  | inr new ↦ rw (add_finalizers_new f wanted have added new) (
      contains-add_finalizers g wanted (have ++ f ∷ []) true
        (ground (arith, any_of-append (λ (k : String). k == g) have (f ∷ []))))
]

contains_last : (f : String) (have : List String) → contains f (have ++ f ∷ []) ≡ true
contains_last f have =
    ground (arith, any_of-append (λ (g : String). g == f) have (f ∷ []), eq_refl f)

abbrev pub AllIn : List String → List String → Type 0
AllIn wanted have = All (λ f. contains f have ≡ true) wanted

add_finalizers_all :
    (wanted have : List String) (added : Bool) → AllIn wanted (add_finalizers wanted have added).0
add_finalizers_all [] have added = tt
add_finalizers_all (f ∷ wanted) have added = elim (Bool-cases (contains f have)) [
  | inl old ↦
      let e = add_finalizers_old f wanted have added old in
      subst (λ (r : List String × Bool). AllIn (f ∷ wanted) r.0) (sym e)
        (contains-add_finalizers f wanted have added old, add_finalizers_all wanted have added)
  | inr new ↦
      let e = add_finalizers_new f wanted have added new in
      subst (λ (r : List String × Bool). AllIn (f ∷ wanted) r.0) (sym e)
        (
          contains-add_finalizers f wanted (have ++ f ∷ []) true (contains_last f have),
          add_finalizers_all wanted (have ++ f ∷ []) true,
        )
]

add_finalizers_present :
    (wanted have : List String) (added : Bool)
    → AllIn wanted have
    → add_finalizers wanted have added ≡ (have, added)
add_finalizers_present [] have added h = add_finalizers_nil have added
add_finalizers_present (f ∷ wanted) have added h =
    add_finalizers_old f wanted have added h.0 ∙ add_finalizers_present wanted have added h.1

added_stays : (wanted have : List String) → (add_finalizers wanted have true).1 ≡ true
unfolding add_finalizers
added_stays [] have = refl
added_stays (f ∷ wanted) have =
    ground (arith, added_stays wanted have, added_stays wanted (have ++ f ∷ []))

add_finalizers_unchanged :
    (wanted have : List String) → (add_finalizers wanted have false).1 ≡ false → AllIn wanted have
add_finalizers_unchanged [] have h = tt
add_finalizers_unchanged (f ∷ wanted) have h = elim (Bool-cases (contains f have)) [
  | inl old ↦
      let e = add_finalizers_old f wanted have false old in
      (old, add_finalizers_unchanged wanted have (rw e at h))
  | inr new ↦
      let e = add_finalizers_new f wanted have false new in
      let stays = added_stays wanted (have ++ f ∷ []) in cc (stays, rw e at h)
]

-- After EnsureFinalizersInMetadata every wanted finalizer is there, and so is each that was there.
ensure_finalizers_lem :
    (m : ObjectMeta) (wanted : List String)
    → let m' = (ensure_finalizers_in_metadata m wanted).0 in
      AllIn wanted m'.finalizers
      × ((g : String) → contains g m.finalizers ≡ true → contains g m'.finalizers ≡ true)
unfolding ensure_finalizers_in_metadata
ensure_finalizers_lem m wanted = (
  add_finalizers_all wanted m.finalizers false,
  λ g. contains-add_finalizers g wanted m.finalizers false,
)

-- EnsureFinalizersInMetadata reports no change exactly when every wanted finalizer was there
-- already, and then it leaves the metadata as it was.
pub ensure_finalizers_changed :
    (m : ObjectMeta) (wanted : List String)
    → ((ensure_finalizers_in_metadata m wanted).1 ≡ false)
      ↔ (AllIn wanted m.finalizers × (ensure_finalizers_in_metadata m wanted ≡ (m, false)))
unfolding ensure_finalizers_in_metadata
ensure_finalizers_changed m wanted = (
  λ h.
      let all = add_finalizers_unchanged wanted m.finalizers h in
      (all, rw (add_finalizers_present wanted m.finalizers false all)),
  λ h. ap (λ (r : ObjectMeta × Bool). r.1) h.1,
)

-- Right after EnsureFinalizersInMetadata, a second call reports no change and makes none.
ensure_finalizers_idem :
    (m : ObjectMeta) (wanted : List String)
    → let m' = (ensure_finalizers_in_metadata m wanted).0 in
      ensure_finalizers_in_metadata m' wanted ≡ (m', false)
unfolding ensure_finalizers_in_metadata
ensure_finalizers_idem m wanted = rw (
    add_finalizers_present wanted (add_finalizers wanted m.finalizers false).0 false
      (add_finalizers_all wanted m.finalizers false))

contains-filter_if :
    (f g : String) (fs : List String)
    → contains g (filter_if (λ h. not (h == f)) fs) ≡ (if f == g then false else contains g fs)
contains-filter_if f g [] = ground arith
contains-filter_if f g (h ∷ fs) =
    ground (arith, eq_iff f g, eq_iff h f, eq_iff h g, contains-filter_if f g fs)

-- RemoveFinalizerInMetadata drops the finalizer and no other one, reports whether it was there,
-- and changes nothing where it was not.
pub remove_finalizer_lem :
    (m : ObjectMeta) (f g : String)
    → let r = remove_finalizer_in_metadata m f in
      (contains g r.0.finalizers ≡ (if f == g then false else contains g m.finalizers))
      × (r.1 ≡ contains f m.finalizers)
      × (r.1 ≡ false → r.0 ≡ m)
unfolding remove_finalizer_in_metadata
remove_finalizer_lem m f g =
    (ground (arith, contains-filter_if f g m.finalizers, eq_iff f g), refl, λ h. rw h)
