-- ===== src/Bridge/Accept/Owner.antt =====
-- Who owns an accepted connection.
use bilbycast_libsrt_rs.Shared.{
  ◌≡◌, Bool, true, false, not, ◌||◌, ◌&&◌, [], ◌∷◌, is_nonneg, eqb, eqb_refl, Bool-cases,
  Option-cases, inl, inr, arith,
}
use bilbycast_libsrt_rs.Bridge.Libsrt.{
  SocketId, Libsrt, History, accept_try_send, srt_accept, srt_epoll_add_usock,
}
use bilbycast_libsrt_rs.Bridge.Plan.{contains}
use bilbycast_libsrt_rs.Bridge.Check.Calls.{closed}
use bilbycast_libsrt_rs.Bridge.Socket.{Sockets, get}
use bilbycast_libsrt_rs.Bridge.Options.{set_bool_opt}
use bilbycast_libsrt_rs.Bridge.Accept.{accept_channel, hand_accepted, own_or_close, handle_accept}

-- Some accept channel took the socket.
abbrev pub handed_over : SocketId → History → Bool
handed_over id [] = false
handed_over id (accept_try_send tx k taken ∷ h) = (eqb k id && taken) || handed_over id h
handed_over id (c ∷ h) = handed_over id h

-- The socket was added to the epoll.
abbrev pub polled : SocketId → History → Bool
polled id [] = false
polled id (srt_epoll_add_usock k ∷ h) = eqb k id || polled id h
polled id (c ∷ h) = polled id h

module _ (s : Libsrt) where
  -- No accepted connection is without an owner: a new connection that `srt_accept` gives is either
  -- taken by the listener's channel, and then polled, or closed, and never both.
  pub accepted_has_one_owner :
      (listener : SocketId) (sockets : Sockets) (h : History)
      → let id = s.accept h listener in
        is_nonneg id ≡ true
        → handed_over id h ≡ false
        → contains (closed h) id ≡ false
        → polled id h ≡ false
        → let h' = (handle_accept s listener sockets h).1 in
          (contains (closed h') id ≡ not (handed_over id h')) × (polled id h' ≡ handed_over id h')
  unfolding handle_accept hand_accepted own_or_close set_bool_opt
  accepted_has_one_owner listener sockets h there fresh still_there unpolled =
      elim (Option-cases (accept_channel (get listener sockets))) [
        | inl no_channel ↦
            (ground (arith, no_channel, eqb_refl (s.accept h listener)), ground (arith, no_channel))
        | inr (tx, some_channel) ↦ elim (Bool-cases (s.takes (srt_accept listener ∷ h) tx)) [
          | inl taken ↦ (
            ground (arith, some_channel, eqb_refl (s.accept h listener)),
            ground (arith, some_channel, eqb_refl (s.accept h listener)),
          )
          | inr refused ↦ (
            ground (arith, some_channel, eqb_refl (s.accept h listener)),
            ground (arith, some_channel, eqb_refl (s.accept h listener)),
          )
        ]
      ]
