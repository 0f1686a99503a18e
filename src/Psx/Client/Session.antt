-- ===== src/Psx/Client/Session.antt =====
-- The order of the events of a connection thread.
use psx_xp_mover.Base.{Bool, true, false, not, Option, List, [], ◌∷◌, ◌++◌, map, if◌then◌else◌}
use psx_xp_mover.Utils.{Bytes}
use psx_xp_mover.Psx.Client.{
  Event, slept, connected, exit_sent, closed, disconnected, received, Round, session,
  run_connection_loop,
}

pub data Phase : Type 0 where
  idle online leaving offline : Phase

module _ {A : Type 0} where
  -- the steps that are allowed
  pub data Step : Phase → Event A → Phase → Type 0 where
    sleep : Step idle slept idle
    connect : Step idle connected online
    receive : {a : A} → Step online (received a) online
    send_exit : Step online exit_sent leaving
    close : Step leaving closed offline
    disconnect : Step offline disconnected idle

  pub data Run : Phase → List (Event A) → Phase → Type 0 where
    done : {p : Phase} → Run p [] p
    next :
        {p q r : Phase} {e : Event A} {es : List (Event A)}
        → Step p e q
        → Run q es r
        → Run p (e ∷ es) r

  Run-append :
      {p q r : Phase} {es fs : List (Event A)} → Run p es q → Run q fs r → Run p (es ++ fs) r
  Run-append done g = g
  Run-append (next s f) g = next s (Run-append f g)

  Run-received : (delivered : List A) → Run online (map received delivered) online
  Run-received [] = done
  Run-received (a ∷ delivered) = next receive (Run-received delivered)

  module _ (on_line_received : Bytes → Option A) where
    Run-session : (chunks : List Bytes) → Run idle (session on_line_received chunks) idle
    unfolding session
    Run-session chunks =
        next connect
          (Run-append (Run-received _) (next send_exit (next close (next disconnect done))))

    Run-choice :
        (b : Bool) {es fs : List (Event A)}
        → Run idle es idle
        → Run idle fs idle
        → Run idle (if b then es else fs) idle
    Run-choice true f g = f
    Run-choice false f g = g

    -- Whatever the rounds, each connection is announced, delivers frames, and is then left with the
    -- exit line, closed and announced as ended, in this order, before the thread sleeps or connects
    -- again; at the end no connection is left open.
    pub run_connection_loop-Run :
        (first_connection : Bool) (rounds : List Round)
        → Run idle (run_connection_loop on_line_received first_connection rounds) idle
    unfolding run_connection_loop
    run_connection_loop-Run first_connection [] = done
    run_connection_loop-Run first_connection (round ∷ rounds) =
        let rest = run_connection_loop-Run false rounds in
        let events = Run-choice round.connects (Run-append (Run-session round.chunks) rest) rest in
        Run-choice first_connection events (Run-choice (not round.sleeps) done (next sleep events))
