-- ===== src/Bridge/Loop/Sound.antt =====
-- The map of sockets as the loop keeps it, and what writes to the map keep of it.
use bilbycast_libsrt_rs.Shared.{
  ◌≤◌, ◌≡◌, refl, sym, subst, ◌∙◌, Bool, false, [], ◌∷◌, none, some, length, All, eqb, eqb_iff,
  Bool-cases, inl, inr, arith,
}
use bilbycast_libsrt_rs.Protocol.Config.{SocketStatus}
use bilbycast_libsrt_rs.Bridge.Libsrt.{SocketId, History}
use bilbycast_libsrt_rs.Bridge.Socket.{
  SocketState, Sockets, get, put, remove, with_status, update_status,
}
use bilbycast_libsrt_rs.Bridge.Check.Repairs.{InLimit}
use bilbycast_libsrt_rs.Bridge.Registering.{insert, new_state}

-- At most one message is held back, each watched member has been replaced at most three times, and only
-- the members of a caller group are watched.
abbrev pub Good : SocketState → Type 0
Good st =
    (length st.send_backlog ≤ 1) × All InLimit st.watched × (st.is_group ≡ false → st.watched ≡ [])

-- One entry for each key, and each state is good.
abbrev pub Sound : Sockets → Type 0
Sound [] = Unit
Sound ((id, st) ∷ m) = (get id m ≡ none) × Good st × Sound m

-- What `Good` reads is the same.
abbrev pub Keeps : SocketState → SocketState → Type 0
Keeps st st' =
    (st'.send_backlog ≡ st.send_backlog) × (st'.watched ≡ st.watched) × (st'.is_group ≡ st.is_group)

pub Keeps-Good : (st st' : SocketState) → Keeps st st' → Good st → Good st'
Keeps-Good st st' (backlog, watched, group) (short, limit, caller) =
    (rw backlog short, rw watched limit, λ no. watched ∙ caller (sym group ∙ no))

pub update_status-Keeps :
    (st : SocketState) (status : SocketStatus) (h : History)
    → Keeps st (update_status st status h).0
unfolding update_status with_status
update_status-Keeps st status h = (ground arith, ground arith, ground arith)

pub get-Sound :
    (id : SocketId) (m : Sockets) {st : SocketState} → get id m ≡ some st → Sound m → Good st
unfolding get
get-Sound id [] {st} there sound = cc
get-Sound id ((k, u) ∷ m) {st} there (absent, good, sound) = elim (Bool-cases (eqb k id)) [
  | inl same ↦ let here : u ≡ st = ground (arith, same) in subst Good here good
  | inr other ↦ get-Sound id m {st = st} (ground (arith, other)) sound
]

get-put-none :
    (id k : SocketId) (st : SocketState) (m : Sockets) → get k m ≡ none → get k (put id st m) ≡ none
unfolding get put
get-put-none id k st [] gone = refl
get-put-none id k st ((j, u) ∷ m) gone = ground (arith, get-put-none id k st m)

pub put-Sound :
    (id : SocketId) (st : SocketState) (m : Sockets) → Good st → Sound m → Sound (put id st m)
unfolding put
put-Sound id st [] good sound = tt
put-Sound id st ((k, u) ∷ m) good (absent, fine, sound) = elim (Bool-cases (eqb k id)) [
  | inl same ↦ rw same (absent, good, sound)
  | inr other ↦ rw other (get-put-none id k st m absent, fine, put-Sound id st m good sound)
]

get-insert-none :
    (id k : SocketId) (st : SocketState) (m : Sockets)
    → eqb id k ≡ false
    → get k m ≡ none
    → get k (insert id st m) ≡ none
unfolding get insert
get-insert-none id k st [] other gone = rw other refl
get-insert-none id k st ((j, u) ∷ m) other gone = ground (arith, get-insert-none id k st m other)

eqb_comm : (a b : SocketId) → eqb a b ≡ false → eqb b a ≡ false
eqb_comm a b h = ground (arith, eqb_iff a b, eqb_iff b a)

pub insert-Sound :
    (id : SocketId) (st : SocketState) (m : Sockets) → Good st → Sound m → Sound (insert id st m)
unfolding insert get
insert-Sound id st [] good sound = (refl, good, tt)
insert-Sound id st ((k, u) ∷ m) good (absent, fine, sound) = elim (Bool-cases (eqb k id)) [
  | inl same ↦ rw same (absent, good, sound)
  | inr other ↦ rw other (
    get-insert-none id k st m (eqb_comm k id other) absent,
    fine,
    insert-Sound id st m good sound,
  )
]

get-remove-none : (id k : SocketId) (m : Sockets) → get k m ≡ none → get k (remove id m) ≡ none
unfolding get remove
get-remove-none id k [] gone = refl
get-remove-none id k ((j, u) ∷ m) gone = ground (arith, get-remove-none id k m)

pub remove-Sound : (id : SocketId) (m : Sockets) → Sound m → Sound (remove id m)
unfolding remove
remove-Sound id [] sound = tt
remove-Sound id ((k, u) ∷ m) (absent, fine, sound) = elim (Bool-cases (eqb k id)) [
  | inl same ↦ rw same (remove-Sound id m sound)
  | inr other ↦ rw other (get-remove-none id k m absent, fine, remove-Sound id m sound)
]

pub new_state-Good : (listener group backup : Bool) → Good (new_state listener group backup)
unfolding new_state
new_state-Good listener group backup = (omega arith, tt, λ no. refl)
