-- ===== src/ReAct/Loop/Store.antt =====
-- `filter_and_store` of funera_core/src/re_act.rs, against the list of events that the chain passes.
use funera.Prelude.{
  [], ◌∷◌, ◌≡◌, ◌++◌, ◌∙◌, refl, if◌then◌else◌, List, ap, sym, append_assoc, true, false, Bool,
  append-nil,
}
use funera.Events.{Result, ok, err}
use funera.Chat.Message.{FuneraMessage}
use funera.Middleware.{MiddlewareBlocked, InspectorError}
use funera.ReAct.Loop.{
  MiddlewareEvent, Wiring, Loop, filter, stored, store_event, filter_and_store, store_verdict,
}

module _ {Evt : Type 0} where
  abbrev pub verdict_events : Result Evt MiddlewareBlocked → List Evt
  verdict_events (ok e) = e ∷ []
  verdict_events (err b) = []

module _ {Evt : Type 0} (w : Wiring Evt) where
  -- the events that the chain lets through, as it leaves them
  abbrev pub passed : List Evt → List Evt
  passed [] = []
  passed (e ∷ es) = verdict_events (filter w.middleware e).0 ++ passed es

module _ {Json Evt : Type 0} (events : MiddlewareEvent Json Evt) where
  abbrev pub all_stored : List Evt → List (FuneraMessage Json)
  all_stored [] = []
  all_stored (e ∷ es) = stored events e ++ all_stored es

  pub all_stored-append :
      (xs ys : List Evt) → all_stored (xs ++ ys) ≡ all_stored xs ++ all_stored ys
  all_stored-append [] ys = refl
  all_stored-append (x ∷ xs) ys =
      ap (λ l. stored events x ++ l) (all_stored-append xs ys)
      ∙ sym (append_assoc (stored events x) (all_stored xs) (all_stored ys))

module _ {A : Type 0} where
  append-nil_if : (b : Bool) (l : List A) → l ≡ (if b then l ++ [] else l)
  append-nil_if true l = sym (append-nil l)
  append-nil_if false l = refl

  append_if :
      (b : Bool) (x y z xs ys : List A)
      → y ≡ (if b then x ++ xs else x)
      → z ≡ (if b then y ++ ys else y)
      → z ≡ (if b then x ++ (xs ++ ys) else x)
  append_if true x y z xs ys p q = q ∙ ap (λ l. l ++ ys) p ∙ append_assoc x xs ys
  append_if false x y z xs ys p q = q ∙ p

module _ {Json Evt : Type 0} (events : MiddlewareEvent Json Evt) (w : Wiring Evt) where
  -- what the events that passed add, and that nothing else is written
  pub record IsStored (es : List Evt) (before after : Loop Json Evt) : Type 0 where
    pub session :
        after.session
        ≡ (if w.session_tx then before.session ++ all_stored events es else before.session)
    pub emitted : after.emitted ≡ (if w.event_sender then before.emitted ++ es else before.emitted)
    pub react : after.react ≡ before.react
    pub requests : after.requests ≡ before.requests

  IsStored-nil : (l : Loop Json Evt) → IsStored [] l l
  IsStored-nil l = record {
    session = append-nil_if w.session_tx l.session;
    emitted = append-nil_if w.event_sender l.emitted;
    react = refl;
    requests = refl;
  }

  IsStored-append :
      (xs ys : List Evt) (l m n : Loop Json Evt)
      → IsStored xs l m
      → IsStored ys m n
      → IsStored (xs ++ ys) l n
  IsStored-append xs ys l m n p q = record {
    session = rw (all_stored-append events) (
        append_if w.session_tx l.session m.session n.session (all_stored events xs)
          (all_stored events ys) p.session q.session);
    emitted = append_if w.event_sender l.emitted m.emitted n.emitted xs ys p.emitted q.emitted;
    react = q.react ∙ p.react;
    requests = q.requests ∙ p.requests;
  }

  store_verdict-IsStored :
      (r : Result Evt MiddlewareBlocked) (errors : List InspectorError) (l : Loop Json Evt)
      → IsStored (verdict_events r) l (store_verdict events w (r, errors) l)
  unfolding store_verdict
  store_verdict-IsStored (ok x) errors l = record {
    session = rw (append-nil (stored events x));
    emitted = refl;
    react = refl;
    requests = refl;
  }
  store_verdict-IsStored (err b) errors l = record {
    session = append-nil_if w.session_tx l.session;
    emitted = append-nil_if w.event_sender l.emitted;
    react = refl;
    requests = refl;
  }

  -- `filter_and_store` adds to the session and to the emitted events exactly what the middleware
  -- passes, in order: a blocked event reaches neither, and a modified one reaches both as modified.
  pub filter_and_store-IsStored :
      (es : List Evt) (l : Loop Json Evt)
      → IsStored (passed w es) l (filter_and_store events w es l)
  unfolding filter_and_store store_event
  filter_and_store-IsStored [] l = IsStored-nil l
  filter_and_store-IsStored (e ∷ es) l =
      let (r, errors) = filter w.middleware e in
      let m = store_verdict events w (r, errors) l in
      IsStored-append (verdict_events r) (passed w es) l m (filter_and_store events w es m)
        (store_verdict-IsStored r errors l) (filter_and_store-IsStored es m)
