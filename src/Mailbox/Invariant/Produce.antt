-- ===== src/Mailbox/Invariant/Produce.antt =====
-- The steps of `TryEmplace` (source/session/BoundedMpscMailbox.h) keep the invariant.
use idtx_core.Base.{
  ℕ, ◌+◌, ◌^◌, ◌≤◌, ◌<◌, ◌≡◌, refl, List, length, update, ℕ_discrete, arith, false,
}
use idtx_core.Mailbox.{
  Mailbox, Producer, Consumer, idle, inspect, reserve, refresh, returned, Emplace, start, available,
  full, outdated, refreshed, exchanged, not_exchanged, constructed, published, leave,
}
use idtx_core.Mailbox.Machine.{log_sent}
use idtx_core.Mailbox.Invariant.Defs.{Inv}
use idtx_core.Mailbox.Invariant.Facts.{available-room}
use idtx_core.Mailbox.Invariant.Reserve.{read-Inv, known-inspect, exchange-Inv}
use idtx_core.Mailbox.Invariant.Construct.{construct-Inv}
use idtx_core.Mailbox.Invariant.Publish.{publish-Inv}

-- Every step of a producer keeps the invariant.
pub Emplace-Inv :
    {A : Type 0} {capacity : ℕ} {m m' : Mailbox A} {pc : ℕ → Producer A} {c : Consumer A}
    {sent received : List A} {p p' : Producer A}
    → Inv capacity m pc c sent received
    → (i : ℕ) → pc i ≡ p
    → 2 ≤ capacity
    → length sent + capacity < 2 ^ 63
    → Emplace capacity m p m' p'
    → Inv capacity m' (update ℕ_discrete pc i p') c (log_sent p' sent) received
Emplace-Inv inv i at two small (start {v = v}) =
    read-Inv inv i (inspect v _) at refl refl (omega (arith, inv.enqueue))
Emplace-Inv inv i at two small (available {v = v} {p = p} e) =
    let le = known-inspect inv i at in
    read-Inv inv i (reserve v p) at refl refl (le, available-room inv two small p le e)
Emplace-Inv inv i at two small (full e) = read-Inv inv i (returned false) at refl refl tt
Emplace-Inv inv i at two small (outdated {v = v} e) = read-Inv inv i (refresh v) at refl refl tt
Emplace-Inv inv i at two small (refreshed {v = v}) =
    read-Inv inv i (inspect v _) at refl refl (omega (arith, inv.enqueue))
Emplace-Inv inv i at two small (exchanged {v = v} {p = p} e) = exchange-Inv inv i v p at e small
Emplace-Inv inv i at two small (not_exchanged {v = v}) =
    read-Inv inv i (inspect v _) at refl refl (omega (arith, inv.enqueue))
Emplace-Inv inv i at two small (constructed {v = v} {p = p}) = construct-Inv inv i v p at
Emplace-Inv inv i at two small (published {p = p}) = publish-Inv inv i p at small
Emplace-Inv inv i at two small leave = read-Inv inv i idle at refl refl tt
