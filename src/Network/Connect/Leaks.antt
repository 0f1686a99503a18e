-- ===== src/Network/Connect/Leaks.antt =====
-- No socket and no list of addresses is lost, and the first address that can be reached is taken.
use mathlib.Core.List.{append-nil}
use psx_xp_mover.Base.{
  is_some, ℕ, ◌≡◌, refl, ap, ◌∙◌, arith, Bool, true, not, ◌&&◌, Option, none, some, List, [], ◌∷◌,
  ◌++◌, if◌then◌else◌,
}
use psx_xp_mover.Base.Int.{ℤ, pos, pos_part}
use psx_xp_mover.Utils.{Bytes}
use psx_xp_mover.Network.{is_valid_tcp_port, is_valid_hostname}
use psx_xp_mover.Network.Connect.{
  Address, release, Resolver, Lookup, lookup_failed, lookup_result, free_addresses,
  resolve_addresses, Attempts, is_ip, with_port, connect_addresses, connect_resolved,
  connect_tcp_client,
}

abbrev pub option_list {ℓ} : {A : Type ℓ} → Option A → List A
option_list none = []
option_list (some a) = a ∷ []

abbrev pub current_lists : Option (ℕ × List Address) → List ℕ
current_lists none = []
current_lists (some list) = list.0 ∷ []

-- Every list that was allocated is released already, or is the current one.
abbrev pub IsAccounted : Resolver → Type 0
IsAccounted r = r.allocated ≡ r.released ++ current_lists r.current

release-IsAccounted :
    (o : Option (ℕ × List Address)) (r : Resolver)
    → r.allocated ≡ r.released ++ current_lists o
    → r.allocated ≡ (release o r).released
release-IsAccounted none r w = w ∙ append-nil r.released
release-IsAccounted (some list) r w = w

resolve_addresses-IsAccounted :
    (hostname : Option Bytes) (lookup : Lookup) (r : Resolver)
    → IsAccounted r
    → IsAccounted (resolve_addresses hostname lookup r).1
unfolding resolve_addresses free_addresses
resolve_addresses-IsAccounted none lookup r w = w
resolve_addresses-IsAccounted (some s) lookup_failed r w = w
resolve_addresses-IsAccounted (some s) (lookup_result list []) r w = w
resolve_addresses-IsAccounted (some s) (lookup_result list (a ∷ addresses)) r w =
    ap (λ l. l ++ list ∷ []) (release-IsAccounted r.current r w)

module _ (socket : Address → Option ℕ) (connect : ℕ → Address → Bool) where
  -- Every socket that was opened is closed again, in order, but for the one that is connected.
  abbrev pub HasNoLeak : Attempts → Type 0
  HasNoLeak a = a.opened ≡ a.closed ++ option_list a.out_sd

  -- what the loop is meant to find
  abbrev pub reached : ℕ → Address → Option ℕ
  reached port a =
      if not a.is_stream
      then none
      else if not (is_ip a.family)
      then none
      else (elim (socket (with_port port a)) [
        | none ↦ none
        | some sd ↦ if connect sd (with_port port a) then some sd else none
      ])

  abbrev pub first_reached : ℕ → List Address → Option ℕ
  first_reached port [] = none
  first_reached port (a ∷ addresses) = elim (reached port a) [
    | none ↦ first_reached port addresses
    | some sd ↦ some sd
  ]

  connect_addresses-HasNoLeak :
      (port : ℕ) (addresses : List Address)
      → HasNoLeak (connect_addresses socket connect port addresses)
  unfolding connect_addresses
  connect_addresses-HasNoLeak port [] = refl
  connect_addresses-HasNoLeak port (a ∷ addresses) =
      ground (arith, connect_addresses-HasNoLeak port addresses)

  connect_addresses-first :
      (port : ℕ) (addresses : List Address)
      → (connect_addresses socket connect port addresses).out_sd ≡ first_reached port addresses
  unfolding connect_addresses
  connect_addresses-first port [] = refl
  connect_addresses-first port (a ∷ addresses) =
      ground (arith, connect_addresses-first port addresses)

  connect_resolved-IsAccounted :
      (port : ℕ) (o : Option (ℕ × List Address)) (r : Resolver)
      → r.current ≡ o
      → IsAccounted r
      → HasNoLeak (connect_resolved socket connect port o r).0
        × IsAccounted (connect_resolved socket connect port o r).1
  unfolding connect_resolved
  connect_resolved-IsAccounted port none r e w = (refl, w)
  connect_resolved-IsAccounted port (some list) r e w =
      (connect_addresses-HasNoLeak port list.1, w ∙ ap (λ o. r.released ++ current_lists o) e)

  -- `connect_tcp_client` closes every socket that it does not return, and loses no list of
  -- addresses: each is released or still the current one, whatever the answers of the system.
  pub connect_tcp_client-HasNoLeak :
      (hostname : Option Bytes) (port : ℤ) (lookup : Lookup) (r : Resolver)
      → IsAccounted r
      → HasNoLeak (connect_tcp_client socket connect hostname port lookup r).0
        × IsAccounted (connect_tcp_client socket connect hostname port lookup r).1
  unfolding connect_tcp_client
  connect_tcp_client-HasNoLeak hostname port lookup r w =
      let resolved = resolve_addresses-IsAccounted hostname lookup r w in
      ground (arith, connect_resolved-IsAccounted (pos_part port) _ _ refl resolved)

  resolved_first :
      (hostname : Option Bytes) (port list : ℕ) (addresses : List Address) (r : Resolver)
      → let resolved = resolve_addresses hostname (lookup_result list addresses) r in
        is_some hostname ≡ true
        → (if not resolved.0
            then none
            else (connect_resolved socket connect port resolved.1.current resolved.1).0.out_sd)
          ≡ first_reached port addresses
  unfolding resolve_addresses connect_resolved
  resolved_first none port list addresses r h = absurd (ground arith)
  resolved_first (some s) port list [] r h = refl
  resolved_first (some s) port list (a ∷ addresses) r h =
      connect_addresses-first port (a ∷ addresses)

  -- For a valid port and host name the socket returned is that of the first IP stream address in
  -- the order of the lookup that has a socket and can be connected, and otherwise there is none.
  pub connect_tcp_client-first :
      (hostname : Option Bytes) (port list : ℕ) (addresses : List Address) (r : Resolver)
      → (connect_tcp_client socket connect hostname
          (pos port)
          (lookup_result list addresses)
          r).0.out_sd
        ≡ (if is_valid_tcp_port (pos port) && is_valid_hostname hostname
            then first_reached port addresses
            else none)
  unfolding connect_tcp_client
  connect_tcp_client-first hostname port list addresses r =
      ground (arith, resolved_first hostname port list addresses r)
