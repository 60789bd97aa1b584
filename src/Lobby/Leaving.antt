-- ===== src/Lobby/Leaving.antt =====
-- `LeaveRoom` of a player who is not in a given room.
use iocp_game_chat_server.Prelude.{
  ℕ, ◌≡◌, ◌≢◌, refl, sym, ap, ◌∙◌, true, none, some, inl, inr, arith, ne→==, ==_self, subst,
  Option-cases,
}
use iocp_game_chat_server.State.{World, player, room}
use iocp_game_chat_server.Room.{has_player, leave}
use iocp_game_chat_server.Room.Members.{Linked, has_player-occurrences, leave-Linked}
use iocp_game_chat_server.Server.{leave_room}

-- What stays where a player leaves another room than `r`.
pub record Left (p r : ℕ) (w w' : World) : Type 0 where
  pub nowhere : (player w' p).room ≡ none
  pub room_stays : room w' r ≡ room w r
  pub others_stay : (q : ℕ) → q ≢ p → player w' q ≡ player w q
  pub session_stays : (player w' p).session ≡ (player w p).session
  pub name_stays : (player w' p).name ≡ (player w p).name
  pub linked : Linked w'.game
  pub sessions_stay : w'.sessions ≡ w.sessions
  pub sent_stays : w'.sent ≡ w.sent
  pub accepts_stay : w'.accepts ≡ w.accepts
  pub state_stays : w'.server_state ≡ w.server_state

leave-Left :
    (p r t : ℕ) (w : World)
    → Linked w.game
    → has_player p (room w t).players ≡ true
    → r ≢ t
    → Left p r w (leave t p w)
unfolding leave
leave-Left p r t w linked member apart =
    let away = ne→== r t apart in
    record {
      nowhere = ground (arith, member, ==_self p);
      room_stays = ground (arith, member, away);
      others_stay = λ q other. let off = ne→== q p other in ground (arith, member, off);
      session_stays = ground (arith, member, ==_self p);
      name_stays = ground (arith, member, ==_self p);
      linked = leave-Linked t p w linked;
      sessions_stay = ground (arith, member);
      sent_stays = ground (arith, member);
      accepts_stay = ground (arith, member);
      state_stays = ground (arith, member);
    }

pub leave_room-Left :
    (p r : ℕ) (w : World) → Linked w.game → (player w p).room ≢ some r → Left p r w (leave_room p w)
unfolding leave_room
leave_room-Left p r w linked away = elim (Option-cases (player w p).room) [
  | inl e ↦
      let stay : leave_room p w ≡ w = rw (leave_room, e) refl in
      subst (Left p r w) (sym stay) (record {
        nowhere = e;
        room_stays = refl;
        others_stay = λ q other. refl;
        session_stays = refl;
        name_stays = refl;
        linked = linked;
        sessions_stay = refl;
        sent_stays = refl;
        accepts_stay = refl;
        state_stays = refl;
      })
  | inr (t, e) ↦
      let leaves : leave_room p w ≡ leave t p w = rw (leave_room, e) refl in
      let apart : r ≢ t = λ same. away (e ∙ ap some (sym same)) in
      let counted = has_player-occurrences p (room w t).players in
      let listed = linked p t in
      let member : has_player p (room w t).players ≡ true =
        counted ∙ rw (listed, e) (ground (arith, ==_self t)) in
      subst (Left p r w) (sym leaves) (leave-Left p r t w linked member apart)
]
