-- ===== src/Psx/Client/Balance.antt =====
-- What creating and destroying a client holds of the system.
use psx_xp_mover.Base.{◌≡◌, refl, arith, Bool, true, false, not, Option, none, some, if◌then◌else◌}
use psx_xp_mover.Base.Int.{ℤ}
use psx_xp_mover.Utils.{Bytes}
use psx_xp_mover.Network.{is_valid_tcp_port}
use psx_xp_mover.Psx.Client.{
  PsxClient, Held, nothing_held, ClientGrants, start_client, create_psx_client, destroy_psx_client,
}

-- Nothing is held without a client, and all four with one.
abbrev pub IsBalanced : Option PsxClient → Held → Type 0
IsBalanced none held = held ≡ nothing_held
IsBalanced (some client) held =
    (held ≡ record { client_memory = true; hostname_memory = true; mutex = true; thread = true })
    × (client.has_mutex ≡ true)
    × (client.has_thread ≡ true)

choice-IsBalanced :
    (b : Bool) (r s : Option PsxClient × Held)
    → IsBalanced r.0 r.1
    → IsBalanced s.0 s.1
    → IsBalanced (if b then r else s).0 (if b then r else s).1
choice-IsBalanced true r s h k = h
choice-IsBalanced false r s h k = k

-- A client that cannot be created leaves nothing held, whichever step fails, and one that is
-- created holds its memory, the mutex and the thread.
pub create_psx_client-IsBalanced :
    (grants : ClientGrants) (hostname : Option Bytes) (port : ℤ) (has_callback : Bool)
    → IsBalanced
        (create_psx_client grants hostname port has_callback nothing_held).0
        (create_psx_client grants hostname port has_callback nothing_held).1
unfolding create_psx_client start_client
create_psx_client-IsBalanced grants none port has_callback = refl
create_psx_client-IsBalanced grants (some hostname) port has_callback =
    choice-IsBalanced (not has_callback) _ _ refl (
      choice-IsBalanced (not (is_valid_tcp_port port)) _ _ refl (
        choice-IsBalanced (not grants.memory) _ _ refl (
          choice-IsBalanced (not grants.copy) _ _ refl (
            choice-IsBalanced (not grants.mutex) _ _ refl
              (choice-IsBalanced (not grants.thread) _ _ refl (refl, refl, refl))))))

-- Destroying a client, when its mutex can be locked and its thread joined, leaves nothing held.
pub destroy_psx_client-nothing_held :
    (client : PsxClient) (held : Held)
    → IsBalanced (some client) held
    → ((destroy_psx_client true true client held).0 ≡ true)
      × ((destroy_psx_client true true client held).2 ≡ nothing_held)
unfolding destroy_psx_client
destroy_psx_client-nothing_held client held w = ground arith
