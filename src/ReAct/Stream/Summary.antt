-- ===== src/ReAct/Stream/Summary.antt =====
-- The turn's text, reasoning, finish reason and usage as functions of the broadcast tokens
-- (`process_token_stream` of funera_core/src/re_act.rs).
use funera.Prelude.{
  List, ◌≡◌, Option, ap, concat, ◌∷◌, none, ◌∙◌, some, nil-push_str, [], ◌++◌, refl,
}
use funera.ReAct.Stream.{
  StreamState, process_token_stream, receive, Arrival, TokenEvent, broadcast, chunk, on_events,
  failed, start, cancelled,
}
use funera.ReAct.Stream.Laws.{
  texts, reasonings, last_finish, last_usage, heard, receive-on_events, tokens-on_events,
  content-on_events, reasoning-on_events, finish-on_events, usage-on_events,
}

module _ {Json Error : Type 0} where
  process-on_events :
      (arrivals : List (Arrival Error))
      → (process_token_stream {Json = Json} arrivals).0
        ≡ broadcast (heard arrivals) (on_events (heard arrivals) start)
  unfolding process_token_stream
  process-on_events arrivals = receive-on_events arrivals start

module _ {Error : Type 0} where
  abbrev pub first_failure : List (Arrival Error) → Option Error
  first_failure [] = none
  first_failure (chunk events ∷ rest) = first_failure rest
  first_failure (failed e ∷ rest) = some e
  first_failure (cancelled ∷ rest) = none

  receive-first_failure :
      {Json : Type 0} (arrivals : List (Arrival Error)) (s : StreamState Json)
      → (receive arrivals s).1 ≡ first_failure arrivals
  unfolding receive
  receive-first_failure [] s = refl
  receive-first_failure (chunk events ∷ rest) s = receive-first_failure rest _
  receive-first_failure (failed e ∷ rest) s = refl
  receive-first_failure (cancelled ∷ rest) s = refl

pub record IsSummary {Json : Type 0} (s : StreamState Json) : Type 0 where
  pub content : s.assistant_content ≡ concat (texts s.tokens)
  pub reasoning : s.reasoning_content ≡ concat (reasonings s.tokens)
  pub finish : s.turn_finish_reason ≡ last_finish none s.tokens
  pub usage : s.turn_usage ≡ last_usage none s.tokens

on_events-IsSummary :
    {Json : Type 0} (es : List TokenEvent)
    → IsSummary (broadcast es (on_events {Json = Json} es start))
on_events-IsSummary es = rw (tokens-on_events es start) (record {
  content = content-on_events es start ∙ nil-push_str (concat (texts es));
  reasoning = reasoning-on_events es start ∙ nil-push_str (concat (reasonings es));
  finish = finish-on_events es start;
  usage = usage-on_events es start;
})

-- What the loop aggregates is what the subscribers of the token bus have seen: the turn's text and
-- reasoning are the concatenations of the broadcast pieces in order, its finish reason and usage the
-- last that were broadcast. The tokens are the contents of the chunks up to the first failure or
-- cancellation, and the error returned is that failure's, if it came before a cancellation.
pub process-IsSummary :
    {Json Error : Type 0} (arrivals : List (Arrival Error))
    → IsSummary (process_token_stream {Json = Json} arrivals).0
      × ((process_token_stream {Json = Json} arrivals).0.tokens ≡ heard arrivals)
      × ((process_token_stream {Json = Json} arrivals).1 ≡ first_failure arrivals)
process-IsSummary {Json} arrivals = (
  rw process-on_events (on_events-IsSummary (heard arrivals)),
  ap (λ (s : StreamState Json). s.tokens) (process-on_events arrivals)
      ∙ ap (λ l. l ++ heard arrivals) (tokens-on_events (heard arrivals) start),
  unfold process_token_stream in receive-first_failure arrivals start,
)

-- How the provider cuts the tokens into chunks makes no difference: streams with the same tokens
-- before their end leave the same variables, and the same events on both buses.
pub process_rechunked :
    {Json Error : Type 0} (a b : List (Arrival Error))
    → heard a ≡ heard b
    → (process_token_stream {Json = Json} a).0 ≡ (process_token_stream {Json = Json} b).0
process_rechunked a b h = rw (process-on_events a, process-on_events b) (rw h)
