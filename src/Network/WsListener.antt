-- ===== src/Network/WsListener.antt =====
-- common/network/ws_impl.go: WsListenerImpl, which upgrades requests to websockets and hands them to Accept.
-- A goroutine is a program counter, as in Network/Conn. The HTTP server and the upgrade are foreign. The queue
-- has no buffer: a handler offers its transport, Accept takes one of those on offer, and then a handler whose
-- send is over moves on. Transports are counted, not told apart.
pub mod Counts
pub mod Closing
mod Examples
use go_tools.Base.{
  ℕ, ◌+◌, ◌-◌, ◌<◌, ◌≤◌, ◌≡◌, Bool, true, false, List, [], ◌∷◌, Option, some, none, if◌then◌else◌,
}
use go_tools.Base.Int.{ℤ, pos, pos_part, leb_ℤ}
use go_tools.Network.Conn.{Once, not_begun, running, finished}

abbrev pub default_ws_max_pending_connections : ℕ
default_ws_max_pending_connections = 1024

-- `closed` is also the state of the channel `done`, which is closed under the same lock. `pending_slots` are
-- those in use. The last five fields count the transports: those on offer, those handed over whose handler
-- has not moved on, those that upgrades have made, that Accept has returned, and that were closed.
pub record WsListenerImpl {ℓ} (E : Type ℓ) : Type ℓ where
  pub max_pending : ℕ
  pub pending_slots : ℕ
  pub upgrade_wg : ℕ
  pub closed : Bool
  pub accept_err : Option E
  pub close_once : Once
  pub offers : ℕ
  pub handed : ℕ
  pub upgraded : ℕ
  pub accepted : ℕ
  pub shut : ℕ

-- The part of NewWsListenerImpl on the queue.
unfoldable pub new_ws_listener_impl {ℓ} : {E : Type ℓ} → ℤ → WsListenerImpl E
new_ws_listener_impl max_pending_connections = record {
  max_pending =
      if leb_ℤ max_pending_connections (pos 0)
      then default_ws_max_pending_connections
      else pos_part max_pending_connections;
  pending_slots = 0;
  upgrade_wg = 0;
  closed = false;
  accept_err = none;
  close_once = not_begun;
  offers = 0;
  handed = 0;
  upgraded = 0;
  accepted = 0;
  shut = 0;
}

-- Where a goroutine stands.
pub data Thread {ℓ} (E : Type ℓ) : Type ℓ where
  handle_upgrade : Thread E
  wants_slot : Thread E
  upgrading : Thread E
  offering : Thread E
  frees_slot : Thread E
  wg_done : Thread E
  accept : Thread E
  holds : Thread E
  close_with_cause : E → Thread E
  close_sets : E → Thread E
  close_server : Thread E
  close_waits : Thread E
  close_over : Thread E
  returned : Thread E
  crashed : Thread E

module _ {ℓ} {E : Type ℓ} where
  -- handleUpgrade
  pub data UpgradeMove (ln : WsListenerImpl E)
      : Thread E → WsListenerImpl E → List (Thread E) → Type ℓ where
    refused : ln.closed ≡ true → UpgradeMove ln handle_upgrade ln (returned ∷ [])
    counted :
        ln.closed ≡ false
        → UpgradeMove ln handle_upgrade
            (record ln { upgrade_wg = ln.upgrade_wg + 1 })
            (wants_slot ∷ [])
    takes_slot :
        ln.pending_slots < ln.max_pending
        → UpgradeMove ln wants_slot
            (record ln { pending_slots = ln.pending_slots + 1 })
            (upgrading ∷ [])
    no_slot : ln.max_pending ≤ ln.pending_slots → UpgradeMove ln wants_slot ln (wg_done ∷ [])
    upgrade_fails : UpgradeMove ln upgrading ln (frees_slot ∷ [])
    upgrades :
        UpgradeMove ln upgrading
          (record ln { upgraded = ln.upgraded + 1; offers = ln.offers + 1 })
          (offering ∷ [])
    offer_taken :
        0 < ln.handed
        → UpgradeMove ln offering (record ln { handed = ln.handed - 1 }) (frees_slot ∷ [])
    offer_late :
        ln.closed ≡ true
        → 0 < ln.offers
        → UpgradeMove ln offering
            (record ln { offers = ln.offers - 1; shut = ln.shut + 1 })
            (frees_slot ∷ [])
    slot_freed :
        UpgradeMove ln frees_slot
          (record ln { pending_slots = ln.pending_slots - 1 })
          (wg_done ∷ [])
    handler_leaves :
        0 < ln.upgrade_wg → UpgradeMove ln wg_done (record ln { upgrade_wg = ln.upgrade_wg - 1 }) []
    handler_crashes : ln.upgrade_wg ≡ 0 → UpgradeMove ln wg_done ln (crashed ∷ [])

  -- Accept and closeWithCause
  pub data CloseMove (ln : WsListenerImpl E)
      : Thread E → WsListenerImpl E → List (Thread E) → Type ℓ where
    accept_over : ln.closed ≡ true → CloseMove ln accept ln (returned ∷ [])
    accept_takes :
        0 < ln.offers
        → CloseMove ln accept
            (record ln { offers = ln.offers - 1; handed = ln.handed + 1 })
            (holds ∷ [])
    accept_late :
        ln.closed ≡ true → CloseMove ln holds (record ln { shut = ln.shut + 1 }) (returned ∷ [])
    accepts :
        ln.closed ≡ false
        → CloseMove ln holds (record ln { accepted = ln.accepted + 1 }) (returned ∷ [])
    close_first :
        {cause : E}
        → ln.close_once ≡ not_begun
        → CloseMove ln
            (close_with_cause cause)
            (record ln { close_once = running })
            (close_sets cause ∷ [])
    close_later :
        {cause : E}
        → ln.close_once ≡ finished
        → CloseMove ln (close_with_cause cause) ln (returned ∷ [])
    sets_closed :
        {cause : E}
        → CloseMove ln
            (close_sets cause)
            (record ln { closed = true; accept_err = some cause })
            (close_server ∷ [])
    closes_server : CloseMove ln close_server ln (close_waits ∷ [])
    waited : ln.upgrade_wg ≡ 0 → CloseMove ln close_waits ln (close_over ∷ [])
    close_done : CloseMove ln close_over (record ln { close_once = finished }) (returned ∷ [])

  pub data Move (ln : WsListenerImpl E)
      : Thread E → WsListenerImpl E → List (Thread E) → Type ℓ where
    move_upgrade :
        {t : Thread E} {ln' : WsListenerImpl E} {next : List (Thread E)}
        → UpgradeMove ln t ln' next
        → Move ln t ln' next
    move_close :
        {t : Thread E} {ln' : WsListenerImpl E} {next : List (Thread E)}
        → CloseMove ln t ln' next
        → Move ln t ln' next
