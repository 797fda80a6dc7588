-- ===== src/Handles/Builders/Endpoints.antt =====
-- The endpoints of a group builder.
use bilbycast_libsrt_rs.Shared.{
  ℕ, suc, ◌+◌, ◌^◌, ◌≤◌, ◌<◌, ◌≡◌, List, [], ◌∷◌, ◌++◌, pos, length, length-append, as_i32, arith,
}
use bilbycast_libsrt_rs.Protocol.Error.{ok}
use bilbycast_libsrt_rs.Bridge.Endpoint.{SocketAddr, GroupEndpoint, new_endpoint, check}
use bilbycast_libsrt_rs.Handles.Builders.{GroupMode, SrtGroupBuilder, new_group, add_endpoint}

-- A chain of `add_endpoint`.
abbrev pub add_endpoints : SrtGroupBuilder → List SocketAddr → SrtGroupBuilder
add_endpoints b [] = b
add_endpoints b (addr ∷ addrs) = add_endpoints (add_endpoint b addr) addrs

-- The tokens count up from `i`, and each endpoint passes its check.
abbrev pub Numbered : ℕ → List GroupEndpoint → Type 0
Numbered i [] = Unit
Numbered i (ep ∷ eps) = (ep.token ≡ pos i) × (check ep ≡ ok tt) × Numbered (suc i) eps

as_i32-small : (n : ℕ) → n < 2 ^ 31 → as_i32 n ≡ pos n
as_i32-small n small = ground arith

new_endpoint-passes : (addr : SocketAddr) (n : ℕ) → check (new_endpoint addr (pos n)) ≡ ok tt
unfolding check new_endpoint
new_endpoint-passes addr n = ground arith

Numbered-append :
    (i n : ℕ) (eps : List GroupEndpoint) (addr : SocketAddr)
    → n ≡ i + length eps
    → Numbered i eps
    → Numbered i (eps ++ new_endpoint addr (pos n) ∷ [])
unfolding new_endpoint
Numbered-append i n [] addr at numbered = (rw at (ground arith), new_endpoint-passes addr n, tt)
Numbered-append i n (ep ∷ eps) addr at (token, passes, rest) =
    (token, passes, Numbered-append (suc i) n eps addr (omega (arith, at)) rest)

Numbered-add_endpoints :
    (b : SrtGroupBuilder) (addrs : List SocketAddr)
    → Numbered 0 b.endpoints
    → length b.endpoints + length addrs ≤ 2 ^ 31
    → Numbered 0 (add_endpoints b addrs).endpoints
      × (length (add_endpoints b addrs).endpoints ≡ length b.endpoints + length addrs)
unfolding add_endpoint
Numbered-add_endpoints b [] numbered room = (numbered, omega arith)
Numbered-add_endpoints b (addr ∷ addrs) numbered room =
    let n = length b.endpoints in
    let token : as_i32 n ≡ pos n = as_i32-small n (omega (arith, room)) in
    let longer = length-append b.endpoints (new_endpoint addr (as_i32 n) ∷ []) in
    let appended : Numbered 0 (add_endpoint b addr).endpoints =
      rw token (Numbered-append 0 n b.endpoints addr (omega arith) numbered) in
    let (passes, total) =
      Numbered-add_endpoints (add_endpoint b addr) addrs appended (omega (arith, longer, room)) in
    (passes, omega (arith, longer, total))

-- The endpoints that `add_endpoint` alone gives a group builder, 2^31 at most, carry the tokens 0, 1, 2
-- and on, so no two are alike; and each passes the check that `connect` makes first.
pub add_endpoints-Numbered :
    (mode : GroupMode) (addrs : List SocketAddr)
    → length addrs ≤ 2 ^ 31
    → let eps = (add_endpoints (new_group mode) addrs).endpoints in
      Numbered 0 eps × (length eps ≡ length addrs)
unfolding new_group
add_endpoints-Numbered mode addrs room =
    let (numbered, total) =
      Numbered-add_endpoints (new_group mode) addrs tt (omega (arith, room)) in
    (numbered, omega (arith, total))
