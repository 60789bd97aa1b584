-- ===== src/Tests/Console.antt =====
-- The console client on a connection that carries one byte at a time.
use iocp_game_chat_server.Prelude.{
  ℕ, suc, ◌≡◌, refl, ap, true, some, List, [], ◌∷◌, ◌++◌, arith, map, length, min,
}
use iocp_game_chat_server.State.{World}
use iocp_game_chat_server.JobQueue.{packet_job}
use iocp_game_chat_server.Session.{packet_bytes, header_bytes}
use iocp_game_chat_server.Receive.Chunks.{receive_all, joined}
use iocp_game_chat_server.Lobby.{digits}
use iocp_game_chat_server.Client.{write_i32_le}
use iocp_game_chat_server.Client.Packets.{packet_of, wires}
use iocp_game_chat_server.Client.Text.{
  is_blank, first_not_blank, last_not_blank, trim, command_of, command_of_trimmed, to_lower_ascii,
  to_lower, same_text,
}
use iocp_game_chat_server.Client.Sockets.{
  Winsock, Documented, Healthy, Outgoing, Incoming, send_all, recv_all,
}
use iocp_game_chat_server.Client.Sockets.Loops.{Handed, Filled, send_all-Handed, recv_all-Filled}
use iocp_game_chat_server.Client.Listening.{Shown, connection_closed, recv_thread}
use iocp_game_chat_server.Client.Listening.Returns.{recv_thread-returns}
use iocp_game_chat_server.Client.Listening.Chats.{Said, chat_wires, line_of, recv_thread-chats}
use iocp_game_chat_server.Client.Console.{Echo, run_client}
use iocp_game_chat_server.Client.Console.Typed.{typed_messages}
use iocp_game_chat_server.Client.Console.Delivered.{run_client-jobs}
use iocp_game_chat_server.Client.Settings.{stoi, signed, starts_with_digit, is_digit, ask_int}
use iocp_game_chat_server.Client.Settings.Numbers.{AllRefused, ask_int-digits}
use iocp_game_chat_server.Tests.Data.{started}
use iocp_game_chat_server.Tests.Receiving.{started-Receiving, started-contents}

abbrev pub trickle : Winsock
trickle = record {
  send = λ n len. some (min len 1);
  recv = λ n len came. some (min (min len came) 1);
}

some_eq : {a b : ℕ} → some a ≡ some b → a ≡ b
some_eq e = cc

pub trickle-Documented : Documented trickle
trickle-Documented = record {
  send_within = λ n len m e. omega (arith, some_eq e);
  recv_within = λ n len came m e. (omega (arith, some_eq e), omega (arith, some_eq e));
}

pub trickle-Healthy : Healthy trickle
trickle-Healthy = record {
  takes_some = λ n len h. let one : min len 1 ≡ 1 = omega (arith, h) in (0, ap some one);
  gives_some = λ n len came h c.
      let one : min (min len came) 1 ≡ 1 = omega (arith, h, c) in (0, ap some one);
}

-- " hi" and a tab
abbrev padded : List ℕ
padded = 32 ∷ (104 ∷ (105 ∷ (9 ∷ [])))

abbrev quiet : Outgoing
quiet = record { sent = []; calls = 0 }

send_all-Handed_example : Handed trickle (send_all trickle padded quiet) padded quiet
send_all-Handed_example = send_all-Handed trickle padded quiet trickle-Documented

abbrev spoken : List Said
spoken =
    record { id = 7; name = 65 ∷ []; text = 104 ∷ (105 ∷ []) }
    ∷ (record { id = 8; name = []; text = 33 ∷ [] } ∷ [])

abbrev heard : Incoming
heard = record { coming = chat_wires spoken; calls = 0 }

recv_all-Filled_example : Filled trickle (recv_all trickle 4 heard) 4 [] heard
recv_all-Filled_example = recv_all-Filled trickle 4 heard trickle-Documented

recv_thread-returns_example :
    (shown : List Shown) × (i' : Incoming) × (recv_thread trickle
        (λ _. true)
        (suc (length heard.coming))
        0
        heard
      ≡ some (shown, i'))
recv_thread-returns_example = recv_thread-returns trickle (λ _. true) heard trickle-Documented

recv_thread-chats_example :
    (i' : Incoming) × (recv_thread trickle (λ _. true) (suc (length heard.coming)) 0 heard
      ≡ some (map line_of spoken ++ (connection_closed ∷ []), i'))
recv_thread-chats_example =
    recv_thread-chats trickle spoken heard trickle-Documented trickle-Healthy
      (
        record { id_small = omega arith; fits = omega arith },
        (record { id_small = omega arith; fits = omega arith }, tt),
      )
      refl

-- A blank line, "hi" and "/quit"
abbrev typed : List (List ℕ)
typed = (32 ∷ []) ∷ (padded ∷ ((b'/' ∷ (b'q' ∷ (b'u' ∷ (b'i' ∷ (b't' ∷ []))))) ∷ ((104 ∷ []) ∷ [])))

-- The login of "A", the wish for room 2, and "hi"
abbrev typed_bytes : List (List ℕ)
typed_bytes =
    (5 ∷ (0 ∷ (1 ∷ (0 ∷ (65 ∷ (8 ∷ (0 ∷ [])))))))
    ∷ ((4 ∷ (0 ∷ (2 ∷ (0 ∷ (0 ∷ (0 ∷ (6 ∷ (0 ∷ (2 ∷ (0 ∷ (104 ∷ (105 ∷ [])))))))))))) ∷ [])

typed_bytes-wires : joined typed_bytes ≡ wires (typed_messages (65 ∷ []) 2 typed)
unfolding packet_bytes header_bytes write_i32_le command_of command_of_trimmed trim is_blank
    first_not_blank last_not_blank to_lower_ascii to_lower same_text
typed_bytes-wires = refl

run_client-jobs_example :
    (shown : List Echo) × (o : Outgoing) × (w' : World) × (run_client trickle
        (λ _. true)
        (65 ∷ [])
        2
        typed
        quiet
      ≡ some (shown, o))
    × (o.sent ≡ joined typed_bytes)
    × (receive_all 5 typed_bytes started ≡ some w')
    × (w'.jobs
        ≡ started.jobs ++ map (packet_job 5) (map packet_of (typed_messages (65 ∷ []) 2 typed)))
run_client-jobs_example =
    run_client-jobs trickle (65 ∷ []) 2 typed 5 typed_bytes started trickle-Documented
      trickle-Healthy (omega arith) started-Receiving started-contents
      (omega arith, omega arith, (omega arith, omega arith, tt)) typed_bytes-wires

x-AllRefused : AllRefused ((120 ∷ []) ∷ [])
unfolding trim is_blank first_not_blank last_not_blank stoi signed starts_with_digit is_digit
x-AllRefused = (omega arith, refl, tt)

-- The word "x", and then the number
ask_int-digits_example :
    ask_int 1 (((120 ∷ []) ∷ []) ++ (digits 10 9001 [] ∷ (padded ∷ []))) ≡ (9001, padded ∷ [])
ask_int-digits_example =
    ask_int-digits 1 9001 ((120 ∷ []) ∷ []) (padded ∷ []) (omega arith) x-AllRefused
