-- ===== src/Bridge/Options/Assigned.antt =====
-- What the assignments of `apply_config` leave.
use bilbycast_libsrt_rs.Shared.{
  ◌≡◌, refl, ap, ◌∙◌, Bool, true, false, not, ◌&&◌, ◌||◌, List, [], ◌∷◌, ◌++◌, Option, none, some,
  eqb_refl, if◌then◌else◌, Bool-cases, arith, inl, inr, sym, get_elem?, ==_iff,
}
use mathlib.Core.Option.{some-injective}
use bilbycast_libsrt_rs.Protocol.Config.{SrtConfig}
use bilbycast_libsrt_rs.Bridge.SockOpt.{
  SockOpt, OptValue, int32, srto_transtype, srto_rcvlatency, srto_peerlatency, srto_mss, srto_fc,
  srto_sndbuf, srto_rcvbuf, srto_peeridletimeo, srto_conntimeo, srto_payloadsize, srto_passphrase,
  srto_pbkeylen, srto_cryptomode, srto_enforcedencryption, srto_maxbw, srto_inputbw, srto_oheadbw,
  srto_maxrexmitbw, srto_streamid, srto_packetfilter, srto_iptos, srto_ipttl, srto_retransmitalgo,
  srto_snddropdelay, srto_lossmaxttl, srto_kmrefreshrate, srto_kmpreannounce, srto_tlpktdrop,
  srto_rendezvous, srto_groupconnect, srto_rcvsyn, srto_sndsyn, srto_rcvdata,
}
use bilbycast_libsrt_rs.Bridge.Libsrt.{SocketId, History, srt_setsockflag}
use bilbycast_libsrt_rs.Bridge.Options.{type_code, apply_config}
use bilbycast_libsrt_rs.Bridge.Options.Effective.{
  same_opt, index, chosen, or_else, given_since_type,
}
use bilbycast_libsrt_rs.Bridge.Options.Assigning.{assign, assign_all, order, apply_config-assigns}

abbrev all_opts : List SockOpt
all_opts = srto_transtype ∷ (order ++ (srto_rcvsyn ∷ srto_sndsyn ∷ srto_rcvdata ∷ []))

all_opts-index : (o : SockOpt) → get_elem? all_opts (index o) ≡ some o
all_opts-index srto_transtype = refl
all_opts-index srto_rcvlatency = refl
all_opts-index srto_peerlatency = refl
all_opts-index srto_mss = refl
all_opts-index srto_fc = refl
all_opts-index srto_sndbuf = refl
all_opts-index srto_rcvbuf = refl
all_opts-index srto_peeridletimeo = refl
all_opts-index srto_conntimeo = refl
all_opts-index srto_payloadsize = refl
all_opts-index srto_passphrase = refl
all_opts-index srto_pbkeylen = refl
all_opts-index srto_cryptomode = refl
all_opts-index srto_enforcedencryption = refl
all_opts-index srto_maxbw = refl
all_opts-index srto_inputbw = refl
all_opts-index srto_oheadbw = refl
all_opts-index srto_maxrexmitbw = refl
all_opts-index srto_streamid = refl
all_opts-index srto_packetfilter = refl
all_opts-index srto_iptos = refl
all_opts-index srto_ipttl = refl
all_opts-index srto_retransmitalgo = refl
all_opts-index srto_snddropdelay = refl
all_opts-index srto_lossmaxttl = refl
all_opts-index srto_kmrefreshrate = refl
all_opts-index srto_kmpreannounce = refl
all_opts-index srto_tlpktdrop = refl
all_opts-index srto_rendezvous = refl
all_opts-index srto_groupconnect = refl
all_opts-index srto_rcvsyn = refl
all_opts-index srto_sndsyn = refl
all_opts-index srto_rcvdata = refl

same_opt-eq : (p o : SockOpt) → same_opt p o ≡ true → p ≡ o
unfolding same_opt
same_opt-eq p o same =
    let indices : index p ≡ index o = (==_iff (index p) (index o)).0 same in
    some-injective p o (sym (all_opts-index p) ∙ ap (get_elem? all_opts) indices ∙ all_opts-index o)

same_opt_refl : (o : SockOpt) → same_opt o o ≡ true
unfolding same_opt
same_opt_refl o = (==_iff (index o) (index o)).1 refl

abbrev covers : SockOpt → List SockOpt → Bool
covers o [] = false
covers o (p ∷ os) = same_opt p o || covers o os

-- The transmission type is not among the options that follow it.
abbrev type_free : List SockOpt → Bool
type_free [] = true
type_free (p ∷ os) = not (same_opt p srto_transtype) && type_free os

order-type_free : type_free order ≡ true
unfolding same_opt
order-type_free = refl

assign-here :
    (id : SocketId) (p o : SockOpt) (v : Option OptValue) (h : History)
    → same_opt p o ≡ true
    → given_since_type id o (assign id p v h).1 ≡ or_else v (given_since_type id o h)
unfolding given_since_type
assign-here id p o none h same = refl
assign-here id p o (some v) h same = rw (eqb_refl id, same) refl

assign-elsewhere :
    (id : SocketId) (p o : SockOpt) (v : Option OptValue) (h : History)
    → same_opt p o ≡ false
    → same_opt p srto_transtype ≡ false
    → given_since_type id o (assign id p v h).1 ≡ given_since_type id o h
unfolding given_since_type
assign-elsewhere id p o none h other plain = refl
assign-elsewhere id p o (some v) h other plain = rw (eqb_refl id, other, plain) refl

or_else-none : (o : Option OptValue) → or_else o none ≡ o
or_else-none none = refl
or_else-none (some u) = refl

or_else-again : (o v : Option OptValue) → or_else o (or_else o v) ≡ or_else o v
or_else-again none v = refl
or_else-again (some u) v = refl

-- An option that is assigned twice is given the same value twice.
assign_all-value :
    (id : SocketId) (c : SrtConfig) (os : List SockOpt) (o : SockOpt) (h : History)
    → type_free os ≡ true
    → given_since_type id o (assign_all c id os h).1 ≡ (
        if covers o os
        then or_else (chosen c o) (given_since_type id o h)
        else given_since_type id o h)
assign_all-value id c [] o h plain = refl
assign_all-value id c (p ∷ os) o h plain =
    let later = assign_all-value id c os o (assign id p (chosen c p) h).1 (ground arith) in
    elim (Bool-cases (same_opt p o)) [
      | inl same ↦
          let now =
            assign-here id p o (chosen c p) h same
            ∙ ap (λ q. or_else (chosen c q) (given_since_type id o h)) (same_opt-eq p o same) in
          later
          ∙ rw (now, same) (ground (arith, or_else-again (chosen c o) (given_since_type id o h)))
      | inr other ↦
          later ∙ rw (assign-elsewhere id p o (chosen c p) h other (ground arith), other) refl
    ]

order-covers :
    (o : SockOpt) (c : SrtConfig) (v : Option OptValue)
    → (same_opt srto_transtype o ≡ true → v ≡ some (int32 (type_code c.trans_type)))
    → (if covers o order then or_else (chosen c o) v else v) ≡ or_else (chosen c o) v
unfolding same_opt chosen
order-covers srto_transtype c v type = type refl
order-covers srto_rcvlatency c v plain = refl
order-covers srto_peerlatency c v plain = refl
order-covers srto_mss c v plain = refl
order-covers srto_fc c v plain = refl
order-covers srto_sndbuf c v plain = refl
order-covers srto_rcvbuf c v plain = refl
order-covers srto_peeridletimeo c v plain = refl
order-covers srto_conntimeo c v plain = refl
order-covers srto_payloadsize c v plain = refl
order-covers srto_passphrase c v plain = refl
order-covers srto_pbkeylen c v plain = refl
order-covers srto_cryptomode c v plain = refl
order-covers srto_enforcedencryption c v plain = refl
order-covers srto_maxbw c v plain = refl
order-covers srto_inputbw c v plain = refl
order-covers srto_oheadbw c v plain = refl
order-covers srto_maxrexmitbw c v plain = refl
order-covers srto_streamid c v plain = refl
order-covers srto_packetfilter c v plain = refl
order-covers srto_iptos c v plain = refl
order-covers srto_ipttl c v plain = refl
order-covers srto_retransmitalgo c v plain = refl
order-covers srto_snddropdelay c v plain = refl
order-covers srto_lossmaxttl c v plain = refl
order-covers srto_kmrefreshrate c v plain = refl
order-covers srto_kmpreannounce c v plain = refl
order-covers srto_tlpktdrop c v plain = refl
order-covers srto_rendezvous c v plain = refl
order-covers srto_groupconnect c v plain = refl
order-covers srto_rcvsyn c v plain = refl
order-covers srto_sndsyn c v plain = refl
order-covers srto_rcvdata c v plain = refl

-- The first call chooses the transmission type.
type_choice-given :
    (id : SocketId) (c : SrtConfig) (o : SockOpt) (h : History)
    → let v = int32 (type_code c.trans_type) in
      let h1 = srt_setsockflag id srto_transtype v ∷ h in
      (same_opt srto_transtype o ≡ true → given_since_type id o h1 ≡ some v)
      × (or_else (chosen c o) (given_since_type id o h1) ≡ chosen c o)
unfolding given_since_type chosen
type_choice-given id c o h = elim (Bool-cases (same_opt srto_transtype o)) [
  | inl type ↦ (
    λ same. rw (eqb_refl id, same) refl,
    rw (sym (ap (chosen c) (same_opt-eq srto_transtype o type))) refl,
  )
  | inr plain ↦ (
    λ same. cc,
    rw (eqb_refl id, plain, same_opt_refl srto_transtype) (or_else-none (chosen c o)),
  )
]

-- After `apply_config`, the last value that libsrt was given for each option, since the last choice of the
-- transmission type, is what the table `chosen` gives for the option in this configuration; an option that
-- `chosen` gives nothing for was not set since. So no later setting replaces a chosen value, and no choice
-- of the type comes after one.
pub apply_config-given :
    (id : SocketId) (c : SrtConfig) (o : SockOpt) (h : History)
    → given_since_type id o (apply_config id c h).1 ≡ chosen c o
unfolding chosen
apply_config-given id c o h =
    let h1 = srt_setsockflag id srto_transtype (int32 (type_code c.trans_type)) ∷ h in
    let (chosen_type, choice) = type_choice-given id c o h in
    ap (λ m. given_since_type id o (m h).1) (apply_config-assigns id c)
    ∙ assign_all-value id c order o h1 order-type_free
    ∙ order-covers o c (given_since_type id o h1) chosen_type
    ∙ choice
