-- ===== src/ControlPlanes/Roles/Tags.antt =====
-- The version that is read out of an image.
use Prim.Native.Char.{code}
use text.Mathlib.TextLemmas.{nil-append, cons-append}
use gateway_operator.Prelude.{
  ℕ, suc, ◌+◌, ◌≤◌, String, ◌<>◌, ◌≡◌, refl, ap, false, some, List, [], ◌∷◌, ◌==◌, string_eq,
  nat_eq, arith, if◌then◌else◌, length, eq_iff, ◌∙◌, Bool-cases, inl, inr,
}
use gateway_operator.ControlPlanes.Roles.{
  split_colons, onto_first, role_version, version_of_parts, latest_version,
}

-- How many colons the text has.
unfoldable pub colons : String → ℕ
colons String.[] = 0
colons (String.◌∷◌ c s) = let rest = colons s in if code c == b':' then suc rest else rest

length-onto_first :
    (f : String → String) (parts : List String) → length (onto_first f parts) ≡ length parts
unfolding onto_first
length-onto_first f [] = refl
length-onto_first f (part ∷ parts) = refl

length-split : (s : String) → length (split_colons s) ≡ suc (colons s)
unfolding split_colons colons
length-split String.[] = refl
length-split (String.◌∷◌ c s) =
    ground (arith, length-split s, length-onto_first (String.◌∷◌ c) (split_colons s))

split_whole : (s : String) → colons s ≡ 0 → split_colons s ≡ s ∷ []
unfolding split_colons colons onto_first
split_whole String.[] h = refl
split_whole (String.◌∷◌ c s) h = ground (arith, split_whole s, h)

after_colon : (b : String) → split_colons (":" <> b) ≡ "" ∷ split_colons b
unfolding split_colons
after_colon b = ap split_colons (cons-append ":" "" b ∙ ap (String.◌∷◌ ":") (nil-append b))

split-append : (a b : String) → colons a ≡ 0 → split_colons (a <> ":" <> b) ≡ a ∷ split_colons b
unfolding split_colons colons onto_first
split-append String.[] b h = rw nil-append (after_colon b)
split-append (String.◌∷◌ c a) b h = rw cons-append (ground (arith, split-append a b, h))

colons-append : (a b : String) → colons (a <> b) ≡ colons a + colons b
unfolding colons
colons-append String.[] b = rw nil-append (omega arith)
colons-append (String.◌∷◌ c a) b = rw cons-append (ground (arith, colons-append a b))

nonempty : (a b : String) → ((a <> ":" <> b) == "") ≡ false
unfolding colons
nonempty a b = elim (Bool-cases ((a <> ":" <> b) == "")) [
  | inl empty ↦ absurd (
      omega (
        arith,
        ap colons ((eq_iff (a <> ":" <> b) "").0 empty),
        colons-append a (":" <> b),
        colons-append ":" b,
      ))
  | inr other ↦ other
]

many_parts :
    (repository : String) (parts : List String)
    → 2 ≤ length parts
    → version_of_parts (repository ∷ parts) ≡ latest_version
many_parts repository [] h = absurd (omega (arith, h))
many_parts repository (a ∷ []) h = absurd (omega (arith, h))
many_parts repository (a ∷ b ∷ rest) h = refl

-- An image with a repository and a tag: the version is the tag, unless that is "latest". If the tag
-- itself has a colon, as where the repository names a port, the version is always the latest.
pub role_version_lem :
    (repository tag : String)
    → colons repository ≡ 0
    → role_version (some (repository <> ":" <> tag)) ≡ (
        if colons tag == 0
        then (if tag == "latest" then latest_version else tag)
        else latest_version)
unfolding role_version
role_version_lem repository tag h =
    rw (nonempty repository tag, split-append repository tag h)
      (elim (Bool-cases (colons tag == 0)) [
        | inl whole ↦ rw (whole, split_whole tag (ground (arith, whole))) refl
        | inr more ↦
            rw more
              (many_parts repository (split_colons tag) (ground (arith, more, length-split tag)))
      ])
