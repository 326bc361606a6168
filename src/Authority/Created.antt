-- ===== src/Authority/Created.antt =====
-- When the Secret of the CA is created, and with what.
use gateway_operator.Prelude.{ℕ, String, ◌≡◌, true, refl, ap}
use gateway_operator.Errors.{Err, err, is_not_found}
use gateway_operator.Api.Meta.{NamespacedName}
use gateway_operator.Signing.{Crypto}
use gateway_operator.Authority.{
  SelfSigning, Secret, create_ca_certificate, maybe_create_ca_certificate, or_create, start, Result,
  ca_template, [], ok, attempt, draw, signed_secret, read, lift,
}
use gateway_operator.Client.{Client, Call, Trace, pure, read, draw, lift, attempt, ◌>>=◌}
use gateway_operator.Client.Calls
use gateway_operator.Client.Before.{Before, Before-later, Before-now}
use gateway_operator.Client.Keeps.{
  Extends, History, Keeps, Answered, Keeps-bind, Keeps-bind_answer, keeps_rules, Extends-refl,
  Keeps-draw, Keeps-if, Keeps-raise, Keeps-read, Keeps-raise, Keeps-lift, Answered-Extends,
}
use gateway_operator.Client.Monad.{attempt_answer, draw_answer, lift_answer}
use mathlib.Core.Path.{subst}

module _ (c : Client) (crypto : Crypto) (self : SelfSigning) (name : NamespacedName) where
  -- A read of the Secret was answered with an error that says that there is none.
  pub record Missing (t : Trace) : Type 0 where
    pub error : Err
    pub answer : Before (λ u. (s : Trace) × (Calls.get_secret c name s ≡ (err error, u))) t
    pub not_found : is_not_found error ≡ true

  -- The Secret has a certificate for the template, and the key that was generated earlier in the run
  -- and that signed it.
  pub record IsAuthority (x : Secret) (t : Trace) : Type 0 where
    pub serial : ℕ
    pub from : ℕ
    pub now : ℕ
    pub key : String
    pub key_der : String
    pub der : String
    pub generated : Before (λ u. crypto.generate_key u ≡ ok key) t
    pub time : Trace
    pub certified : self.create_certificate time (ca_template serial from now) key ≡ ok der
    pub marshalled : crypto.marshal_key key ≡ ok key_der
    pub made : x ≡ signed_secret crypto name der key_der

  -- What holds when the call is made after the calls `t`.
  abbrev pub OnlyIfMissing : Trace → Call → Type 0
  OnlyIfMissing t (Call.create_secret x) = Missing t × IsAuthority x t
  OnlyIfMissing t (Call.get_secret n) = n ≡ name
  OnlyIfMissing t _ = ⊥

  Missing-later : (t u : Trace) → Extends t u → Missing u → Missing t
  Missing-later t u e m = record {
    error = m.error;
    answer = Before-later t u e m.answer;
    not_found = m.not_found;
  }

  IsAuthority-later : (x : Secret) (t u : Trace) → Extends t u → IsAuthority x u → IsAuthority x t
  IsAuthority-later x t u e is = record {
    serial = is.serial;
    from = is.from;
    now = is.now;
    key = is.key;
    key_der = is.key_der;
    der = is.der;
    generated = Before-later t u e is.generated;
    time = is.time;
    certified = is.certified;
    marshalled = is.marshalled;
    made = is.made;
  }

  written-Keeps :
      (x : Secret) (u : Trace)
      → Missing u
      → IsAuthority x u
      → Keeps u OnlyIfMissing (Calls.create_secret c x >>= λ _. pure tt)
  written-Keeps x u missing is = search (keeps_rules, both)
    where
      both : (t : Trace) → Extends t u → Missing u → IsAuthority x u → Missing t × IsAuthority x t
      both t e m i = (Missing-later t u e m, IsAuthority-later x t u e i)

  -- the certificate and the key, once the key is generated
  made_of-Keeps :
      (serial from now : ℕ) (key : String) (u : Trace)
      → Missing u
      → Before (λ v. crypto.generate_key v ≡ ok key) u
      → Keeps u OnlyIfMissing (
          lift (crypto.marshal_key key) >>= λ key_der.
          draw (λ t. self.create_certificate t (ca_template serial from now) key) >>= λ der.
          Calls.create_secret c (signed_secret crypto name der key_der) >>= λ _. pure tt)
  made_of-Keeps serial from now key u missing generated =
      let marshal = lift (crypto.marshal_key key) in
      let certify = draw certificate in
      Keeps-bind_answer marshal _ (Keeps-lift (crypto.marshal_key key)) (λ key_der t marshalled.
        let later =
          Answered-Extends marshal key_der t
            (Keeps-lift {P = OnlyIfMissing} (crypto.marshal_key key)) marshalled in
        Keeps-bind_answer certify _ (Keeps-draw certificate) (λ der v certified.
          let still =
            Answered-Extends certify der v (Keeps-draw {P = OnlyIfMissing} certificate) certified in
          written-Keeps (signed_secret crypto name der key_der) v
            (Missing-later v t still (Missing-later t u later missing))
            (record {
              serial = serial;
              from = from;
              now = now;
              key = key;
              key_der = key_der;
              der = der;
              generated = Before-later v t still (Before-later t u later generated);
              time = certified.before;
              certified = draw_answer certificate certified.before v certified.answer;
              marshalled =
                  lift_answer (crypto.marshal_key key) marshalled.before t marshalled.answer;
              made = refl;
            })))
    where
      certificate : Trace → Result String
      certificate t = self.create_certificate t (ca_template serial from now) key

  create-Keeps :
      (u : Trace) → Missing u → Keeps u OnlyIfMissing (create_ca_certificate c crypto self name)
  unfolding create_ca_certificate draw
  create-Keeps u missing =
      Keeps-bind (draw self.random_serial) _ (Keeps-draw self.random_serial) (λ serial.
        Keeps-bind (read c.now) _ (Keeps-read c.now) (λ from.
          Keeps-bind (read c.now) _ (Keeps-read c.now) (λ now.
            Keeps-bind_answer (draw crypto.generate_key) _ (Keeps-draw crypto.generate_key)
              (λ key t drawn.
                let later =
                  Answered-Extends (draw crypto.generate_key) key t
                    (Keeps-draw {P = OnlyIfMissing} crypto.generate_key) drawn in
                made_of-Keeps serial from now key t (Missing-later t u later missing)
                  (generated key t drawn)))))
    where
      generated :
          (key : String) (t : Trace)
          → Answered u (draw crypto.generate_key) key t
          → Before (λ v. crypto.generate_key v ≡ ok key) t
      generated key t drawn = record {
        time = drawn.before;
        since =
            subst (λ v. Extends v drawn.before)
              (ap (λ (x : Result String × Trace). x.1) drawn.answer) (Extends-refl drawn.before);
        held = draw_answer crypto.generate_key drawn.before t drawn.answer;
      }

  or_create-Keeps :
      (r : Result Secret) (u t : Trace)
      → Answered u (attempt (Calls.get_secret c name)) r t
      → Keeps t OnlyIfMissing (or_create c crypto self name r)
  unfolding or_create
  or_create-Keeps (ok s) u t answered = search keeps_rules
  or_create-Keeps (err e) u t answered =
      Keeps-if (is_not_found e) _ _
        (λ absent. create-Keeps t (record {
          error = e;
          answer =
              Before-now t
                (answered.before, attempt_answer (Calls.get_secret c name) answered.answer);
          not_found = absent;
        }))
        (λ _. Keeps-raise e)

  maybe_create-Keeps :
      (u : Trace) → Keeps u OnlyIfMissing (maybe_create_ca_certificate c crypto self name)
  unfolding maybe_create_ca_certificate
  maybe_create-Keeps u =
      Keeps-bind_answer (attempt (Calls.get_secret c name)) _ (search keeps_rules)
        (λ r t answered. or_create-Keeps r u t answered)

  -- When the manager of the CA starts, on any server, the only calls are reads of the Secret of that
  -- name and its creation, and it is created only after a read was answered with an error that says
  -- that there is none. It has then the key that was generated earlier in the run, and a certificate
  -- that was made for the template of a CA with that key.
  pub start-OnlyIfMissing : History OnlyIfMissing (start c crypto self name []).1
  unfolding start
  start-OnlyIfMissing = run.at [] (Extends-refl []) tt
    where
      run : Keeps [] OnlyIfMissing (start c crypto self name)
      run = search (keeps_rules, maybe_create-Keeps)
