-- ===== src/Process/Server.antt =====
-- internal/server/server.go. What the operating system and net/http do while Run waits is a sequence of
-- events: the listener returns, or the context is cancelled by a signal.
use backend_infra_assessment.Base.{
  ◌*◌, ◌≡◌, ◌⊎◌, inl, inr, refl, String, Option, none, some, List, [], ◌∷◌, append, Has,
}
use backend_infra_assessment.Domain.{Duration}
use backend_infra_assessment.Process.Connect.{second}

pub record Server (Engine : Type 0) : Type 0 where
  pub addr : String
  pub handler : Engine
  pub read_header_timeout : Duration

unfoldable pub new_server : {Engine : Type 0} → String → Engine → Server Engine
new_server port engine = record {
  addr = append ":" port;
  handler = engine;
  read_header_timeout = 10 * second;
}

-- What ListenAndServe returns: http.ErrServerClosed, or another error.
pub data ListenError : Type 0 where
  server_closed : ListenError
  listen_failed : String → ListenError

pub data Event : Type 0 where
  listener_returned : ListenError → Event
  interrupted : Event

-- How Run ends: with what it was sent on errCh, or by a shutdown within some time.
pub data Ended : Type 0 where
  failed : String → Ended
  shut_down : Duration → Ended

-- Run: it waits until one of the two channels is ready. The goroutine does not send ErrServerClosed.
unfoldable pub run : List Event → Option Ended
run [] = none
run (interrupted ∷ events) = some (shut_down (10 * second))
run (listener_returned (listen_failed e) ∷ events) = some (failed e)
run (listener_returned server_closed ∷ events) = run events

-- Run ends in a shutdown only where the process was interrupted, and in an error only where the
-- listener returned that error.
pub run-some :
    (events : List Event) (e : Ended)
    → run events ≡ some e
    → ((e ≡ shut_down (10 * second)) × Has interrupted events)
      ⊎ ((t : String) × (e ≡ failed t) × Has (listener_returned (listen_failed t)) events)
unfolding run
run-some [] e h = cc h
run-some (interrupted ∷ events) e h = inl (cc h, inl refl)
run-some (listener_returned (listen_failed t) ∷ events) e h = inr (t, cc h, inl refl)
run-some (listener_returned server_closed ∷ events) e h = elim (run-some events e h) [
  | inl (k, m) ↦ inl (k, inr m)
  | inr (t, k, m) ↦ inr (t, k, inr m)
]
