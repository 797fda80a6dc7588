-- ===== src/Bridge/Connect/Checked.antt =====
-- What `GroupEndpoint::check` lets through to `prepare_target`.
use bilbycast_libsrt_rs.Shared.{◌≡◌, ◌≤◌, ◌↔◌, Option-cases, inl, inr, true, some, is_nonneg, arith}
use bilbycast_libsrt_rs.Protocol.Error.{ok}
use bilbycast_libsrt_rs.Bridge.Endpoint.{
  SocketAddr, is_ipv4, GroupEndpoint, check, max_group_member_weight,
}
use bilbycast_libsrt_rs.Bridge.Connect.{prepare_target}

-- The source address, if there is one, is of the target's family.
abbrev pub SameFamily : GroupEndpoint → Type 0
SameFamily ep = (local : SocketAddr) → ep.local_addr ≡ some local → is_ipv4 local ≡ is_ipv4 ep.addr

-- An endpoint passes the check exactly where its addresses are of one family, its weight is one libsrt
-- takes and its token is not negative; and what passes reaches libsrt with the weight, the token and
-- the addresses that it has.
pub check-passes :
    (ep : GroupEndpoint)
    → ((check ep ≡ ok tt)
        ↔ (SameFamily ep × (ep.weight ≤ max_group_member_weight) × (is_nonneg ep.token ≡ true)))
      × (check ep ≡ ok tt
          → prepare_target ep
            ≡ record { src = ep.local_addr; peer = ep.addr; weight = ep.weight; token = ep.token })
unfolding check prepare_target
check-passes ep = elim (Option-cases ep.local_addr) [
  | inl anywhere ↦ ((λ e. (ground arith, ground arith, ground arith), ground arith), ground arith)
  | inr (local, from) ↦
      ((ground arith, λ h. let same = h.0 local from in ground (arith, same)), ground arith)
]
