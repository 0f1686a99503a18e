-- ===== src/Psx/Client.antt =====
-- `create_psx_client`, `destroy_psx_client` and the outer loop of `run_connection_loop` in src/psx.c.
pub mod Balance
pub mod Session
use psx_xp_mover.Base.{
  ℕ, Bool, true, false, not, ◌&&◌, Option, none, some, List, [], ◌∷◌, ◌++◌, map, is_some,
  if◌then◌else◌,
}
use psx_xp_mover.Base.Int.{ℤ, pos}
use psx_xp_mover.Utils.{Bytes}
use psx_xp_mover.Network.{is_valid_tcp_port}
use psx_xp_mover.Network.Connect.{Resolver, free_addresses}
use psx_xp_mover.Psx.Lines.{Receiver, Outcome, running, failed, fresh_receiver, receive_chunks}

-- `psx_client_t`, but for the callbacks
pub record PsxClient : Type 0 where
  pub hostname : Option Bytes
  pub port : ℤ
  pub has_mutex : Bool
  pub has_thread : Bool
  pub should_shutdown : Bool
  pub resolved_addresses : Resolver

-- what is held of the system: two pieces of memory, the mutex and the thread
pub record Held : Type 0 where
  pub client_memory : Bool
  pub hostname_memory : Bool
  pub mutex : Bool
  pub thread : Bool

abbrev pub nothing_held : Held
nothing_held = record {
  client_memory = false;
  hostname_memory = false;
  mutex = false;
  thread = false;
}

-- what the system grants
pub record ClientGrants : Type 0 where
  pub memory : Bool
  pub copy : Bool
  pub mutex : Bool
  pub thread : Bool

-- `zmalloc` leaves all fields 0
abbrev pub blank_client : PsxClient
blank_client = record {
  hostname = none;
  port = pos 0;
  has_mutex = false;
  has_thread = false;
  should_shutdown = false;
  resolved_addresses = record { current = none; allocated = []; released = [] };
}

-- the label `error`
abbrev pub give_up : PsxClient → Held → Option PsxClient × Held
give_up client held = (
  none,
  record held {
    mutex = if client.has_mutex then false else held.mutex;
    hostname_memory = if is_some client.hostname then false else held.hostname_memory;
    client_memory = false;
  },
)

-- from the mutex on
unfoldable pub start_client : ClientGrants → PsxClient → Held → Option PsxClient × Held
start_client grants client held =
    let locked = record client { has_mutex = true } in
    if not grants.mutex
    then give_up client held
    else if not grants.thread
    then give_up locked (record held { mutex = true })
    else (some (record locked { has_thread = true }), record held { mutex = true; thread = true })

-- The flag says whether there is a callback for frames.
unfoldable pub create_psx_client :
    ClientGrants → Option Bytes → ℤ → Bool → Held → Option PsxClient × Held
unfolding start_client
create_psx_client grants none port has_callback held = (none, held)
create_psx_client grants (some hostname) port has_callback held =
    let allocated = record held { client_memory = true } in
    if not has_callback
    then (none, held)
    else if not (is_valid_tcp_port port)
    then (none, held)
    else if not grants.memory
    then (none, held)
    else if not grants.copy
    then give_up blank_client allocated
    else start_client grants (record blank_client { hostname = some hostname; port = port })
        (record allocated { hostname_memory = true })

-- With whether it succeeds, and the addresses when the client is gone. The flags say whether the
-- mutex can be locked and the thread be joined.
unfoldable pub destroy_psx_client : Bool → Bool → PsxClient → Held → Bool × PsxClient × Held
unfolding free_addresses
destroy_psx_client locks joins client held =
    let stopping = record client { should_shutdown = true } in
    if client.has_mutex && not locks
    then (false, stopping, held)
    else if client.has_thread && not joins
    then (false, stopping, held)
    else (
      true,
      record stopping {
        has_thread = false;
        has_mutex = false;
        hostname = none;
        resolved_addresses = free_addresses client.resolved_addresses;
      },
      record held {
        thread = if client.has_thread then false else held.thread;
        mutex = if client.has_mutex then false else held.mutex;
        hostname_memory = false;
        client_memory = false;
      },
    )

-- what the connection thread does, as the plugin and the server see it
pub data Event (A : Type 0) : Type 0 where
  slept connected exit_sent closed disconnected : Event A
  received : A → Event A

-- One round of the loop: whether the sleep in front of it ends well, whether the connection is made,
-- and the chunks that are read until the server closes it or the client shuts down.
pub record Round : Type 0 where
  pub sleeps : Bool
  pub connects : Bool
  pub chunks : List Bytes

module _ {A : Type 0} (on_line_received : Bytes → Option A) where
  abbrev pub delivered_by : Outcome A → List A
  delivered_by (running r) = r.delivered
  delivered_by (failed delivered) = delivered

  -- The buffers are new in each round; a line that fails ends the session. The client is one that has
  -- been given both callbacks, as the plugin gives them: one that is NULL would not be called.
  unfoldable pub session : List Bytes → List (Event A)
  unfolding receive_chunks
  session chunks =
      connected
      ∷ (map received (delivered_by (receive_chunks on_line_received chunks (fresh_receiver [])))
          ++ (exit_sent ∷ closed ∷ disconnected ∷ []))

  -- The rounds until the client shuts down; the flag is `first_connection`.
  unfoldable pub run_connection_loop : Bool → List Round → List (Event A)
  unfolding session
  run_connection_loop first_connection [] = []
  run_connection_loop first_connection (round ∷ rounds) =
      let rest = run_connection_loop false rounds in
      let events = if round.connects then session round.chunks ++ rest else rest in
      if first_connection then events else if not round.sleeps then [] else slept ∷ events
