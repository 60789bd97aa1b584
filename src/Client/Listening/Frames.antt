-- ===== src/Client/Listening/Frames.antt =====
-- `RecvThread` on a connection that carries whole packets and then closes.
use iocp_game_chat_server.Prelude.{
  ℕ, zero, suc, ◌+◌, ◌-◌, ◌*◌, ◌^◌, ◌≤◌, ◌<◌, ◌≡◌, refl, sym, ap, ◌∙◌, Bool, true, false, some, inl,
  inr, List, [], ◌∷◌, ◌++◌, arith, if◌then◌else◌, ltb, ◌||◌, Bool-cases, length, get_or, take, drop,
  take-append, drop-append, length-append, length-take, take-append-drop, append_assoc, take_all,
}
use iocp_game_chat_server.Packet.{header_size, max_packet_size, pkt_sc_shutdown}
use iocp_game_chat_server.Session.{packet_bytes, header_bytes}
use iocp_game_chat_server.Session.Sending.{IsFramed}
use iocp_game_chat_server.Receive.Chunks.{joined}
use iocp_game_chat_server.Client.{read_u16_le}
use iocp_game_chat_server.Client.Sockets.{Winsock, Documented, Healthy, Incoming, recv_all}
use iocp_game_chat_server.Client.Sockets.Exact.{recv_all_enough, recv_all_short}
use iocp_game_chat_server.Client.Listening.{
  Shown, connection_closed, server_shutdown, read_body, handle_packet, receive_body, recv_round,
  recv_thread,
}

read_body-front :
    (k : Winsock) (body ys : List ℕ) (i : Incoming)
    → Documented k
    → Healthy k
    → i.coming ≡ body ++ ys
    → (i' : Incoming) × (read_body k (length body) i ≡ some (some body, i')) × (i'.coming ≡ ys)
unfolding read_body
read_body-front k [] ys i d h e = (i, refl, e)
read_body-front k (b ∷ body) ys i d h e =
    let all = length-append (b ∷ body) ys in
    let enough : length (b ∷ body) ≤ length i.coming = rw e (omega (arith, all)) in
    let (i', read, left) = recv_all_enough k (length (b ∷ body)) i d h enough in
    let got : take (length (b ∷ body)) i.coming ≡ b ∷ body = rw e (take-append (b ∷ body) ys) in
    let rest : drop (length (b ∷ body)) i.coming ≡ ys = rw e (drop-append (b ∷ body) ys) in
    let more : read_body k (length (b ∷ body)) i ≡ recv_all k (length (b ∷ body)) i =
      let some_body : ltb 0 (length (b ∷ body)) ≡ true = ground arith in
      rw (read_body, some_body) refl in
    (i', more ∙ read ∙ ap (λ x. some (some x, i')) got, left ∙ rest)

receive_body_read :
    (k : Winsock) (id : ℕ) (body : List ℕ) (i i' : Incoming)
    → header_size + length body ≤ max_packet_size
    → read_body k (length body) i ≡ some (some body, i')
    → receive_body k (header_size + length body) id i
      ≡ some ((handle_packet id body).0, (handle_packet id body).1, i')
unfolding receive_body
receive_body_read k id body i i' small body_read =
    let fits : (ltb (header_size + length body) header_size
          || ltb max_packet_size (header_size + length body))
        ≡ false =
      ground (arith, small) in
    let apart : header_size + length body - header_size ≡ length body = omega arith in
    let read : read_body k (header_size + length body - header_size) i ≡ some (some body, i') =
      ap (λ n. read_body k n i) apart ∙ body_read in
    rw (receive_body, fits, read) refl

recv_round_read :
    (k : Winsock) (id : ℕ) (header body : List ℕ) (i i₁ i₂ : Incoming)
    → recv_all k header_size i ≡ some (some header, i₁)
    → read_u16_le header 0 ≡ header_size + length body
    → read_u16_le header 2 ≡ id
    → header_size + length body ≤ max_packet_size
    → read_body k (length body) i₁ ≡ some (some body, i₂)
    → recv_round k i ≡ some ((handle_packet id body).0, (handle_packet id body).1, i₂)
unfolding recv_round
recv_round_read k id header body i i₁ i₂ read size id_read small body_read =
    rw (recv_round, read, size, id_read) (receive_body_read k id body i₁ i₂ small body_read)

-- What `RecvThread` does with a packet of these bytes.
abbrev pub handled : List ℕ → Shown × Bool
handled bytes = handle_packet (read_u16_le (take header_size bytes) 2) (drop header_size bytes)

-- A packet as `SendPacket` builds it
pub handled-packet_bytes :
    (id : ℕ) (body : List ℕ)
    → id < 2 ^ 16
    → handled (packet_bytes id body (length body)) ≡ handle_packet id body
unfolding read_u16_le packet_bytes header_bytes
handled-packet_bytes id body small =
    let same : read_u16_le (take header_size (packet_bytes id body (length body))) 2 ≡ id =
      ground (arith, small) in
    let whole = take_all (length body) body (omega arith) in
    ap (λ n. handle_packet n (take (length body) body)) same ∙ ap (handle_packet id) whole

pub handled-shutdown : handled (packet_bytes pkt_sc_shutdown [] 0) ≡ (server_shutdown, false)
unfolding handle_packet
handled-shutdown = handled-packet_bytes pkt_sc_shutdown [] (omega arith)

-- Split at the header.
recv_round-header :
    (k : Winsock) (header body ys : List ℕ) (i : Incoming)
    → Documented k
    → Healthy k
    → length header ≡ header_size
    → read_u16_le header 0 ≡ header_size + length body
    → header_size + length body ≤ max_packet_size
    → i.coming ≡ header ++ (body ++ ys)
    → (i' : Incoming) × (recv_round k i
        ≡ some (
          (handle_packet (read_u16_le header 2) body).0,
          (handle_packet (read_u16_le header 2) body).1,
          i',
        ))
      × (i'.coming ≡ ys)
recv_round-header k header body ys i d h four size small e =
    let long : header_size ≤ length i.coming =
      rw e (omega (arith, length-append header (body ++ ys), four)) in
    let (i₁, read, left) = recv_all_enough k header_size i d h long in
    let front : take header_size i.coming ≡ header =
      ap (take header_size) e
      ∙ ap (λ (n : ℕ). take n (header ++ (body ++ ys))) (sym four)
      ∙ take-append header (body ++ ys) in
    let behind : drop header_size i.coming ≡ body ++ ys =
      ap (drop header_size) e
      ∙ ap (λ (n : ℕ). drop n (header ++ (body ++ ys))) (sym four)
      ∙ drop-append header (body ++ ys) in
    let (i₂, got, rest) = read_body-front k body ys i₁ d h (left ∙ behind) in
    (
      i₂,
      recv_round_read k _ header body i i₁ i₂ (read ∙ ap (λ xs. some (some xs, i₁)) front) size refl
          small got,
      rest,
    )

told_front :
    (bytes : List ℕ)
    → read_u16_le (take header_size bytes) 0 ≡ get_or bytes 0 0 + get_or bytes 1 0 * 256
unfolding read_u16_le
told_front [] = refl
told_front (a ∷ []) = refl
told_front (a ∷ (b ∷ bytes)) = refl

recv_round-frame :
    (k : Winsock) (bytes ys : List ℕ) (i : Incoming)
    → Documented k
    → Healthy k
    → IsFramed bytes
    → i.coming ≡ bytes ++ ys
    → (i' : Incoming) × (recv_round k i ≡ some ((handled bytes).0, (handled bytes).1, i'))
      × (i'.coming ≡ ys)
recv_round-frame k bytes ys i d h f e =
    let header = take header_size bytes in
    let body = drop header_size bytes in
    let parts : bytes ≡ header ++ body = sym (take-append-drop header_size bytes) in
    let four : length header ≡ header_size =
      omega (arith, length-take header_size bytes, f.enough) in
    let all : length bytes ≡ header_size + length body =
      ap length parts ∙ length-append header body ∙ ap (λ n. n + length body) four in
    recv_round-header k header body ys i d h four (told_front bytes ∙ f.told ∙ all)
      (omega (arith, all, f.within)) (e ∙ ap (λ xs. xs ++ ys) parts ∙ append_assoc header body ys)

abbrev pub AllWhole : List (List ℕ) → Type 0
AllWhole [] = Unit {0}
AllWhole (bytes ∷ rest) = IsFramed bytes × AllWhole rest

-- What is shown of these packets, up to one that ends the loop, or the end of the connection.
abbrev pub shown_packets : List (List ℕ) → List Shown
shown_packets [] = connection_closed ∷ []
shown_packets (bytes ∷ rest) =
    let later = shown_packets rest in (handled bytes).0 ∷ (if (handled bytes).1 then later else [])

recv_thread-frames :
    (k : Winsock) (packets : List (List ℕ)) (i : Incoming) (fuel n : ℕ)
    → Documented k
    → Healthy k
    → AllWhole packets
    → i.coming ≡ joined packets
    → length packets < fuel
    → (i' : Incoming) × (recv_thread k (λ _. true) fuel n i ≡ some (shown_packets packets, i'))
unfolding recv_thread
recv_thread-frames k packets i zero n d h all e enough = absurd (omega arith)
recv_thread-frames k [] i (suc fuel) n d h all e enough =
    let none_left : length i.coming < header_size = rw e (omega arith) in
    let (i', short) = recv_all_short k header_size i d none_left in
    let ends : recv_round k i ≡ some (connection_closed, false, i') = rw (recv_round, short) refl in
    (i', rw (recv_thread, ends) refl)
recv_thread-frames k (bytes ∷ rest) i (suc fuel) n d h (one, all) e enough =
    let (i', ran, left) = recv_round-frame k bytes (joined rest) i d h one e in
    elim (Bool-cases (handled bytes).1) [
      | inr stops ↦ (i', rw (recv_thread, ran, stops) refl)
      | inl goes ↦
          let (i'', later) = recv_thread-frames k rest i' fuel (suc n) d h all left (omega arith) in
          (i'', rw (recv_thread, ran, goes, later) refl)
    ]

length-joined :
    (packets : List (List ℕ)) → AllWhole packets → length packets ≤ length (joined packets)
length-joined [] all = omega arith
length-joined (bytes ∷ rest) (one, all) =
    omega (arith, length-joined rest all, length-append bytes (joined rest), one.enough)

-- `RecvThread` on a connection that carries whole packets and then closes.
pub recv_thread-packets :
    (k : Winsock) (packets : List (List ℕ)) (i : Incoming)
    → Documented k
    → Healthy k
    → AllWhole packets
    → i.coming ≡ joined packets
    → (i' : Incoming) × (recv_thread k (λ _. true) (suc (length i.coming)) 0 i
        ≡ some (shown_packets packets, i'))
recv_thread-packets k packets i d h all e =
    recv_thread-frames k packets i (suc (length i.coming)) 0 d h all e
      (omega (arith, length-joined packets all, ap length e))
