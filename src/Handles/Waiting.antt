-- ===== src/Handles/Waiting.antt =====
-- Where `wait_for_state` ends.
use bilbycast_libsrt_rs.Shared.{
  ℕ, ◌≡◌, refl, sym, ap, ◌∙◌, ◌==◌, ==_iff, if◌then◌else◌, ◌↔◌, arith, true, List, [], ◌∷◌, ◌++◌,
  All, Bool-cases, inl, inr, ◌⊎◌,
}
use bilbycast_libsrt_rs.Protocol.Config.{SocketStatus}
use bilbycast_libsrt_rs.Bridge.Status.{place, same_status}
use bilbycast_libsrt_rs.Handles.Streaming.{ends_wait, wait_for_state}

-- The status with a place.
abbrev at_place : ℕ → SocketStatus
at_place n =
    if n == 0
    then SocketStatus.init
    else if n == 1
    then SocketStatus.opened
    else if n == 2
    then SocketStatus.listening
    else if n == 3
    then SocketStatus.connecting
    else if n == 4
    then SocketStatus.connected
    else if n == 5
    then SocketStatus.broken
    else if n == 6
    then SocketStatus.closing
    else if n == 7
    then SocketStatus.closed
    else SocketStatus.non_exist

at_place-place : (a : SocketStatus) → at_place (place a) ≡ a
at_place-place SocketStatus.init = refl
at_place-place SocketStatus.opened = refl
at_place-place SocketStatus.listening = refl
at_place-place SocketStatus.connecting = refl
at_place-place SocketStatus.connected = refl
at_place-place SocketStatus.broken = refl
at_place-place SocketStatus.closing = refl
at_place-place SocketStatus.closed = refl
at_place-place SocketStatus.non_exist = refl

same_status_iff : (a b : SocketStatus) → (same_status a b ≡ true) ↔ (a ≡ b)
unfolding same_status
same_status_iff a b = (
  λ same.
      sym (at_place-place a) ∙ ap at_place ((==_iff (place a) (place b)).0 same) ∙ at_place-place b,
  λ e. (==_iff (place a) (place b)).1 (ap place e),
)

-- The status waited for, or one of the two that end every wait.
abbrev pub Stops : SocketStatus → SocketStatus → Type 0
Stops target status =
    (status ≡ target) ⊎ (status ≡ SocketStatus.broken) ⊎ (status ≡ SocketStatus.closed)

ends_wait_iff :
    (target status : SocketStatus) → (ends_wait target status ≡ true) ↔ Stops target status
ends_wait_iff target status = ground (
  arith,
  same_status_iff status target,
  same_status_iff status SocketStatus.broken,
  same_status_iff status SocketStatus.closed,
)

-- Of the statuses shown, in order, none before `result` stops the wait, and `result` stops it or is the
-- last.
abbrev pub EndsAtFirst : SocketStatus → List SocketStatus → SocketStatus → Type 0
EndsAtFirst target shown result =
    (before : List SocketStatus) × (after : List SocketStatus) × (shown ≡ before ++ result ∷ after)
    × All (λ status. ¬ Stops target status) before
    × (Stops target result ⊎ (after ≡ []))

-- A wait for a status returns the first status shown to it that is the one waited for, `Broken` or
-- `Closed`, or else the last one, shown when the sender was dropped.
pub wait_for_state-first :
    (target current : SocketStatus) (later : List SocketStatus)
    → EndsAtFirst target (current ∷ later) (wait_for_state target current later)
unfolding wait_for_state
wait_for_state-first target current [] = ([], [], refl, tt, inr refl)
wait_for_state-first target current (next ∷ later) = elim (Bool-cases (ends_wait target current)) [
  | inl ends ↦ rw ends ([], next ∷ later, refl, tt, inl ((ends_wait_iff target current).0 ends))
  | inr goes ↦
      let (before, after, split, skipped, stop) = wait_for_state-first target next later in
      let on : ¬ Stops target current =
        λ stops. ground (arith, goes, (ends_wait_iff target current).1 stops) in
      rw goes (current ∷ before, after, ap (λ l. current ∷ l) split, (on, skipped), stop)
]
