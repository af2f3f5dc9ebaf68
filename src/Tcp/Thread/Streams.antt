-- ===== src/Tcp/Thread/Streams.antt =====
-- A client's thread of src/modbus_tcp.c has one socket at most, and tells the hook of each.
use modbus_protocol.Prelude.{
  ℕ, ◌≡◌, refl, ◌∙◌, arith, Bool, true, Option, none, some, List, [], ◌∷◌, ◌==◌, if_cases,
  option_cases,
}
use modbus_protocol.Tcp.Thread.{
  close_fd, Stream, Attempt, process_stream, client_round, client_thread, farewell,
}
use modbus_protocol.Tcp.Thread.Table.{opened, told}

abbrev pub sockets : Option ℕ → List ℕ
sockets none = []
sockets (some sock) = sock ∷ []

-- The open sockets are the one in `stream_sock`, if there is one, of which alone the hook was last
-- told that it is connected.
pub record Holds (s : Stream) : Type 0 where
  pub open_fds : s.open_fds ≡ sockets s.stream_sock
  pub reported : (fd : ℕ) → told fd s.log ≡ opened fd (sockets s.stream_sock)

pub close_fd-own : (sock : ℕ) → close_fd sock (sock ∷ []) ≡ []
unfolding close_fd
close_fd-own sock = let own : (sock == sock) ≡ true = ground arith in rw own refl

process_stream-Holds :
    (fails : Bool) (sock : ℕ) (s : Stream)
    → s.stream_sock ≡ some sock
    → Holds s
    → Holds (process_stream fails sock s)
unfolding process_stream
process_stream-Holds fails sock s has v =
    if_cases Holds fails
      (λ _. record {
        open_fds = rw (v.open_fds, has) (close_fd-own sock);
        reported = λ fd.
            let before : told fd s.log ≡ opened fd (sock ∷ []) = v.reported fd ∙ rw has refl in
            unfold told opened in let b = before in ground arith;
      })
      (λ _. v)

client_round-Holds : (a : Attempt) (s : Stream) → Holds s → Holds (client_round a s)
unfolding client_round
client_round-Holds a s v =
    option_cases Holds s.stream_sock
      (λ off.
        option_cases Holds a.connects (λ _. v)
          λ sock _.
            process_stream-Holds a.fails sock
              record {
                stream_sock = some sock;
                open_fds = sock ∷ s.open_fds;
                log = (sock, true) ∷ s.log;
              }
              refl
              record {
                open_fds = rw (v.open_fds, off) refl;
                reported = λ fd.
                    let before : told fd s.log ≡ 0 =
                      v.reported fd ∙ rw off (unfold opened in refl) in
                    unfold told opened in ground arith;
              })
      (λ sock on. process_stream-Holds a.fails sock s on v)

-- A client's thread that begins with no open socket but the one in `stream_sock`, if there is one, as
-- the hook was told: whatever `mb_tcp_connect` and the application do in its rounds, at its end the
-- socket in `stream_sock` is still the only open one, and the hook was last told of every socket that
-- it is not connected.
pub client_thread-Told :
    (attempts : List Attempt) (s : Stream)
    → Holds s
    → ((client_thread attempts s).open_fds ≡ sockets (client_thread attempts s).stream_sock)
      × ((fd : ℕ) → told fd (client_thread attempts s).log ≡ 0)
unfolding client_thread told opened
client_thread-Told [] s v = (v.open_fds, λ fd. ended fd s.stream_sock (v.reported fd))
  where
    ended :
        (fd : ℕ) (o : Option ℕ)
        → told fd s.log ≡ opened fd (sockets o)
        → told fd (farewell o s.log) ≡ 0
    ended fd none e = e
    ended fd (some sock) e = ground arith
client_thread-Told (a ∷ more) s v =
    client_thread-Told more (client_round a s) (client_round-Holds a s v)
