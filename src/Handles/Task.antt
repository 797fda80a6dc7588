-- ===== src/Handles/Task.antt =====
-- A Tokio task that talks to the I/O thread: the commands it sends, and what it gets back. What an awaited
-- channel yields is a function of the commands sent before (`Replies`), so it may be anything each time.
use bilbycast_libsrt_rs.Shared.{ℕ, suc, List, ◌∷◌, Option, none, some, Text}
use bilbycast_libsrt_rs.Protocol.Error.{SrtError, Result, err}
use bilbycast_libsrt_rs.Bridge.Endpoint.{SocketAddr, v4}
use bilbycast_libsrt_rs.Bridge.Libsrt.{SocketId, Channel}
use bilbycast_libsrt_rs.Bridge.Command.{IoCommand}

-- The commands sent so far, the latest first, and the next channel's identity.
pub record Sent : Type 0 where
  pub commands : List IoCommand
  pub next : Channel

-- What a `oneshot` yields: `none` where its sender is dropped. A timed wait may also elapse.
pub data Timed : Type 0 where
  elapsed dropped : Timed
  answered : Result (Unit {0}) → Timed

pub record Replies : Type 0 where
  pub id_reply : Sent → Channel → Option (Result SocketId)
  pub unit_reply : Sent → Channel → Option (Result (Unit {0}))
  pub timed_reply : Sent → Channel → (budget : ℕ) → Timed
  pub addr_reply : Sent → Channel → Option (Option SocketAddr)
  pub text_reply : Sent → Channel → Option Text
  -- a connection that waits in an accept channel
  pub accepted : Sent → Option SocketId

abbrev pub Task {ℓ} : Type ℓ → Type ℓ
Task A = Sent → A × Sent

infixl 5 ◌>>=◌ ◌>>◌
abbrev pub ◌>>=◌ {ℓ κ} : {A : Type ℓ} {B : Type κ} → Task A → (A → Task B) → Task B
◌>>=◌ m f h = let (a, h') = m h in f a h'

abbrev pub ◌>>◌ {ℓ κ} : {A : Type ℓ} {B : Type κ} → Task A → Task B → Task B
◌>>◌ m k h = let (a, h') = m h in k h'

abbrev pub pure {ℓ} : {A : Type ℓ} → A → Task A
pure a h = (a, h)

-- `io.send_command(cmd)`
abbrev pub send_command : IoCommand → Task (Unit {0})
send_command cmd h = (tt, record h { commands = cmd ∷ h.commands })

-- `oneshot::channel()` and the like.
abbrev pub new_channel : Task Channel
new_channel h = (h.next, record h { next = suc h.next })

-- `rx.await.map_err(|_| SrtError::SocketFail)?`
abbrev pub or_socket_fail {ℓ} : {A : Type ℓ} → Option (Result A) → Result A
or_socket_fail none = err SrtError.socket_fail
or_socket_fail (some r) = r

-- `unwrap_or(None).unwrap_or_else(...)`
abbrev pub or_none : Option (Option SocketAddr) → Option SocketAddr
or_none none = none
or_none (some o) = o

abbrev pub unwrap_or : Option SocketAddr → SocketAddr → SocketAddr
unwrap_or none default_addr = default_addr
unwrap_or (some addr) default_addr = addr

-- `"0.0.0.0:0".parse().unwrap()`
abbrev pub unspecified : SocketAddr
unspecified = v4 0 0 0 0 0

-- A reply awaited.
abbrev pub await {ℓ} : {A : Type ℓ} → (Sent → Channel → A) → Channel → Task A
await reply c h = (reply h c, h)
