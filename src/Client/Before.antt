-- ===== src/Client/Before.antt =====
-- What held when the calls were fewer.
use gateway_operator.Prelude.{Bool, true, false, if◌then◌else◌, ◌≡◌}
use gateway_operator.Errors.{ok}
use gateway_operator.Client.{Trace, M, Call, ◌>>=◌}
use gateway_operator.Client.Keeps.{
  Keeps, Keeps-bind_answer, Answered, Answered-Extends, Extends, Extends-refl, Extends-trans,
}

-- Before the calls that come after `t`, `P` held of the calls so far.
pub record Before (P : Trace → Type 0) (t : Trace) : Type 0 where
  pub time : Trace
  pub since : Extends t time
  pub held : P time

-- The code has just answered with `a`.
abbrev pub Ran : {A : Type 0} → M A → A → Trace → Type 0
Ran m a t = (start : Trace) × (m start ≡ (ok a, t))

module _ {P : Trace → Type 0} where
  pub Before-now : (t : Trace) → P t → Before P t
  Before-now t h = record { time = t; since = Extends-refl t; held = h }

  pub Before-later : (t u : Trace) → Extends t u → Before P u → Before P t
  Before-later t u e b = record {
    time = b.time;
    since = Extends-trans t u b.time e b.since;
    held = b.held;
  }

module _ {A B : Type 0} {P : Trace → Call → Type 0} {u : Trace} where
  after_write :
      (m : M (Bool × A)) (stop : M B) (rest : A → M B) (r : Bool × A) (t : Trace)
      → Answered u m r t
      → Keeps t P stop
      → ((a : A) → Before (Ran m (false, a)) t → Keeps t P (rest a))
      → Keeps t P (if r.0 then stop else rest r.1)
  after_write m stop rest (true, a) t answered ks kr = ks
  after_write m stop rest (false, a) t answered ks kr =
      kr a (Before-now t (answered.before, answered.answer))

  -- A step that answers whether it has written, after which the rest is left to a later run.
  pub Keeps-unless_written :
      (m : M (Bool × A)) (stop : M B) (rest : A → M B)
      → Keeps u P m
      → ((t : Trace) → Extends t u → Keeps t P stop)
      → ((a : A) (t : Trace) → Extends t u → Before (Ran m (false, a)) t → Keeps t P (rest a))
      → Keeps u P (m >>= λ r. if r.0 then stop else rest r.1)
  Keeps-unless_written m stop rest km ks kr = Keeps-bind_answer m _ km (λ r t answered.
      let later = Answered-Extends m r t km answered in
      after_write m stop rest r t answered (ks t later) (λ a ran. kr a t later ran))
