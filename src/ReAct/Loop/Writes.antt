-- ===== src/ReAct/Loop/Writes.antt =====
-- What it is to only add to what the loop of funera_core/src/re_act.rs writes to.
use funera.ReAct.Loop.{Loop, Step, go_on, stop, abort}
use funera.Prelude.{
  [], ◌≡◌, ◌++◌, ◌≤◌, ◌+◌, ◌∙◌, true, false, refl, arith, if◌then◌else◌, List, Bool, ℕ, ap, sym,
  append-nil, append_assoc,
}
use funera.Prelude.{length}

module _ {A : Type 0} where
  -- `l` is `before` with something added at its end
  pub record Extends (before l : List A) : Type 0 where
    pub added : List A
    pub split : l ≡ before ++ added

  pub Extends-refl : (l : List A) → Extends l l
  Extends-refl l = record { added = []; split = sym (append-nil l) }

  pub Extends-trans : {x y z : List A} → Extends x y → Extends y z → Extends x z
  Extends-trans {x} p q = record {
    added = p.added ++ q.added;
    split = q.split ∙ ap (λ l. l ++ q.added) p.split ∙ append_assoc x p.added q.added;
  }

  pub Extends-append : (l xs : List A) → Extends l (l ++ xs)
  Extends-append l xs = record { added = xs; split = refl }

  pub Extends-if : (b : Bool) (l xs m : List A) → m ≡ (if b then l ++ xs else l) → Extends l m
  Extends-if true l xs m p = record { added = xs; split = p }
  Extends-if false l xs m p = record { added = []; split = p ∙ sym (append-nil l) }

module _ {Json Evt : Type 0} where
  -- nothing that was written is changed or dropped
  pub record Grows (before l : Loop Json Evt) : Type 0 where
    pub session : Extends before.session l.session
    pub emitted : Extends before.emitted l.emitted
    pub react : Extends before.react l.react
    pub requests : Extends before.requests l.requests

  pub Grows-refl : (l : Loop Json Evt) → Grows l l
  Grows-refl l = record {
    session = Extends-refl l.session;
    emitted = Extends-refl l.emitted;
    react = Extends-refl l.react;
    requests = Extends-refl l.requests;
  }

  pub Grows-trans : {x y z : Loop Json Evt} → Grows x y → Grows y z → Grows x z
  Grows-trans p q = record {
    session = Extends-trans p.session q.session;
    emitted = Extends-trans p.emitted q.emitted;
    react = Extends-trans p.react q.react;
    requests = Extends-trans p.requests q.requests;
  }

  -- a step that writes, with at most `n` more requests
  pub record Writes (n : ℕ) (before l : Loop Json Evt) : Type 0 where
    pub grows : Grows before l
    pub bound : length l.requests ≤ length before.requests + n

  pub Writes-trans :
      (m n : ℕ) {x y z : Loop Json Evt} → Writes m x y → Writes n y z → Writes (m + n) x z
  Writes-trans m n p q = record {
    grows = Grows-trans p.grows q.grows;
    bound = omega (arith, p.bound, q.bound);
  }

  abbrev pub loop_of : Step Json Evt → Loop Json Evt
  loop_of (go_on l) = l
  loop_of (stop l) = l
  loop_of (abort l e) = l
