-- ===== src/Transport/Tests.antt =====
-- Two devices, a few bytes of a stream, and a connection that is closed.
use merkle_lan_sync.Base.{
  ℕ, ◌<◌, ◌≤◌, ◌≡◌, ◌≢◌, refl, arith, true, false, none, some, List, [], ◌∷◌, ◌++◌, ok, err, All,
  length, replicate, bytes_eq, bytes_eq_iff, Option, if◌then◌else◌, ◌&&◌,
}
use merkle_lan_sync.Base.Maps.{find, store, number_key, bytes_key}
use merkle_lan_sync.Bytes.{IsByte, put_be}
use merkle_lan_sync.Protocol.Errors as Protocol
use merkle_lan_sync.Protocol.Messages.{Hello, Message, hello, ping, IsTyped}
use merkle_lan_sync.Protocol.DeviceId.{device_id_from_cert}
use merkle_lan_sync.Protocol.Framing.{write_frame}
use merkle_lan_sync.Protocol.Messages.{recv_action}
use merkle_lan_sync.Protocol.Messages.Buffers.{enc_uint, enc_len_prefixed}
use merkle_lan_sync.Protocol.Messages.Codec.{write_message, decode_message}
use merkle_lan_sync.Transport.Errors.{outbound_overflow}
use merkle_lan_sync.Transport.Allowlist.{Allowlist, allowed}
use merkle_lan_sync.Transport.Handshake.{Socket, Established, establish, read_hello}
use merkle_lan_sync.Transport.Handshake.Laws.{establish_sound, establish_complete}
use merkle_lan_sync.Transport.Stream.{write_all, read_loop, ended, out_of_fuel}
use merkle_lan_sync.Transport.Stream.Laws.{read_loop-write_all}
use merkle_lan_sync.Transport.Stream.Ends.{read_loop_ends}
use merkle_lan_sync.Transport.Conn.{
  Conn, opened, waiting, new_conn, read_one, is_free, on_frame, on_action, on_dispatch,
}
use merkle_lan_sync.Transport.Machine.{
  State, peer_disconnected, Action, connect, register, emit_connected, open_gate, frame, deliver,
  send_message, init, remove_id, is_supervised, run, step, at, put, emit, on_register,
  on_emit_connected, on_open_gate, on_deliver, is_opened,
}
use merkle_lan_sync.Transport.Machine.Order.{IsOrdered, connects, run-IsOrdered}
use merkle_lan_sync.Transport.Machine.Close.{cause, cause-run}
use merkle_lan_sync.Transport.Machine.Drain.{wind_down, run-wind_down}
use merkle_lan_sync.Transport.Identity.{
  Dir, absent, holds, Attempt, Library, Identity, load_or_create_identity, from_files,
  create_identity, generate_identity, persist_identity, persist_encoded, first_cert, write_both,
  write_file_atomic, persisted,
}
use merkle_lan_sync.Transport.Identity.Laws.{load_or_create_identity_again}

-- A hash of one value.
abbrev hash : List ℕ → List ℕ
hash bytes = replicate 32 7

abbrev own : List ℕ
own = replicate 32 5

abbrev friends : Allowlist
friends = (replicate 32 7, tt) ∷ []

abbrev greet : List ℕ → Hello
greet id = record {
  proto_version = 1;
  device_id = id;
  folder_id = [];
  root_hash = replicate 32 0;
  feature_flags = 0;
}

abbrev greeting_bytes : List ℕ → List ℕ
greeting_bytes id =
    0 ∷ 0 ∷ 0 ∷ 73 ∷ 1 ∷ 0 ∷ 1 ∷ (id ++ (0 ∷ 0 ∷ (replicate 32 0 ++ (0 ∷ 0 ∷ 0 ∷ 0 ∷ []))))

on_list : allowed (hash (1 ∷ [])) friends ≡ true
unfolding allowed find bytes_eq
on_list = refl

greet-IsTyped : IsTyped (hello (greet (replicate 32 7)))
greet-IsTyped = omega arith

theirs : write_message (hello (greet (replicate 32 7))) ≡ ok (greeting_bytes (replicate 32 7))
unfolding write_message enc_uint enc_len_prefixed write_frame put_be
theirs = refl

ours : write_message (hello (greet own)) ≡ ok (greeting_bytes own)
unfolding write_message enc_uint enc_len_prefixed write_frame put_be
ours = refl

abbrev socket : Socket
socket = record {
  fails = false;
  certs = (1 ∷ []) ∷ [];
  takes = true;
  stream = greeting_bytes (replicate 32 7) ++ (9 ∷ []);
}

abbrev shaken : Established
shaken = record {
  device_id = replicate 32 7;
  peer_hello = greet (replicate 32 7);
  sent = greeting_bytes own;
  rest = 9 ∷ [];
}

establish_complete_example : establish hash friends own (greet []) socket ≡ ok shaken
establish_complete_example =
    establish_complete hash friends own (greet []) (1 ∷ []) [] (greet (replicate 32 7))
      (greeting_bytes own) (greeting_bytes (replicate 32 7)) (9 ∷ []) on_list refl greet-IsTyped
      theirs ours

done : establish hash friends own (greet []) socket ≡ ok shaken
done =
    establish_complete hash friends own (greet []) (1 ∷ []) [] (greet (replicate 32 7))
      (greeting_bytes own) (greeting_bytes (replicate 32 7)) (9 ∷ []) on_list refl greet-IsTyped
      theirs ours

establish_sound_example :
    (cert : List ℕ) × (more : List (List ℕ)) × (socket.certs ≡ cert ∷ more)
    × (shaken.device_id ≡ hash cert)
    × (allowed shaken.device_id friends ≡ true)
    × (read_hello socket.stream ≡ (ok shaken.peer_hello, shaken.rest))
    × (shaken.peer_hello.device_id ≡ shaken.device_id)
    × (write_message (hello (record (greet []) { device_id = own })) ≡ ok shaken.sent)
establish_sound_example = establish_sound hash friends own (greet []) socket shaken done

abbrev pings : List Message
pings = ping ∷ ping ∷ []

abbrev ping_bytes : List ℕ
ping_bytes = 0 ∷ 0 ∷ 0 ∷ 1 ∷ 6 ∷ 0 ∷ 0 ∷ 0 ∷ 1 ∷ 6 ∷ []

pings-IsTyped : All IsTyped pings
pings-IsTyped = omega arith

pings_written : write_all pings ≡ ok ping_bytes
unfolding write_all write_message write_frame put_be
pings_written = refl

pings_enough : length pings < 3
pings_enough = omega arith

read_loop-write_all_example : read_loop 3 ping_bytes ≡ (pings, ended)
read_loop-write_all_example =
    read_loop-write_all pings ping_bytes 3 pings-IsTyped pings_written pings_enough

ping_bytes-IsByte : All IsByte ping_bytes
ping_bytes-IsByte = omega arith

ping_bytes_enough : length ping_bytes < 11
ping_bytes_enough = omega arith

read_loop_ends_example : (read_loop 11 ping_bytes).1 ≢ out_of_fuel
read_loop_ends_example = read_loop_ends ping_bytes 11 ping_bytes-IsByte ping_bytes_enough

-- A first message that is read before the connection is announced.
abbrev early : List Action
early =
    connect own (greet own)
    ∷ frame 1 (ok (6, []))
    ∷ deliver 1 false
    ∷ register 1
    ∷ deliver 1 false
    ∷ emit_connected 1 false
    ∷ open_gate 1
    ∷ deliver 1 false
    ∷ []

early_alive : (run 64 init early).closed ≡ false
unfolding run step init at put find store emit new_conn read_one is_free on_frame on_action
    on_dispatch recv_action decode_message on_register on_emit_connected on_open_gate on_deliver
    is_opened
early_alive = refl

run-IsOrdered_example :
    IsOrdered 1 (run 64 init early).events × (connects 1 (run 64 init early).events ≤ 1)
run-IsOrdered_example = run-IsOrdered 64 1 early early_alive

abbrev lost : Conn
lost = record {
  device_id = own;
  hello = greet own;
  outbound = [];
  stage = opened;
  closed = some (some outbound_overflow);
  reading = true;
  holding = some ping;
  writing = true;
  supervisor = waiting;
}

abbrev running : State
running = record {
  closing = false;
  closed = false;
  cancelled = false;
  next_conn_id = 1;
  heap = (1, lost) ∷ [];
  conns = 1 ∷ [];
  events = [];
}

lost_there : find 1 running.heap ≡ some lost
unfolding find
lost_there = refl

lost_caused : cause (find 1 running.heap) ≡ some (some outbound_overflow)
unfolding find
lost_caused = refl

lost_supervised : is_supervised lost.stage ≡ true
unfolding is_supervised
lost_supervised = refl

run-wind_down_example :
    ((run 64 running (wind_down 1)).conns ≡ remove_id 1 running.conns)
    × ((run 64 running (wind_down 1)).events
        ≡ peer_disconnected own (some outbound_overflow) ∷ running.events)
run-wind_down_example =
    run-wind_down 64 1 (some outbound_overflow) lost running lost_there refl lost_supervised refl

lost_born : 1 ≤ running.next_conn_id
lost_born = omega arith

cause-run_example :
    cause (
      find 1
        (run 64 running (frame 1 (err Protocol.zero_length) ∷ send_message 1 true ping ∷ [])).heap)
    ≡ some (some outbound_overflow)
cause-run_example =
    cause-run 64 1 (some outbound_overflow) running
      (frame 1 (err Protocol.zero_length) ∷ send_message 1 true ping ∷ []) lost_caused lost_born

abbrev cert_and_key : Dir
cert_and_key = record { cert = holds (1 ∷ []); key = holds (2 ∷ []) }

-- A PEM form that is the content itself.
abbrev library : Library
library = record {
  x509_key_pair = λ cert key.
      if bytes_eq cert (1 ∷ []) && bytes_eq key (2 ∷ []) then some (cert ∷ [], key) else none;
  parses = λ der. bytes_eq der (1 ∷ []);
  cert_pem = λ der. some der;
  key_pem = λ key. some key;
}

-- The key that the certificate is made for.
abbrev Fits : List ℕ → List ℕ → Type 0
Fits der key = (der ≡ 1 ∷ []) × (key ≡ 2 ∷ [])

pem_reads :
    (der key c k : List ℕ)
    → library.parses der ≡ true
    → Fits der key
    → library.cert_pem der ≡ some c
    → library.key_pem key ≡ some k
    → library.x509_key_pair c k ≡ some (der ∷ [], key)
pem_reads der key c k parsed (ed, ek) ec ekey =
    ground (arith, bytes_eq_iff der (1 ∷ []), bytes_eq_iff key (2 ∷ []))

abbrev made_pair : Option (List ℕ × List ℕ)
made_pair = some (1 ∷ [], 2 ∷ [])

made-Fits : (der key : List ℕ) → made_pair ≡ some (der, key) → Fits der key
made-Fits der key e = (ground (arith, e), ground (arith, e))

abbrev all_well : Attempt
all_well = record {
  creates = true;
  chmods = true;
  writes = true;
  syncs = true;
  closes = true;
  renames = true;
}

abbrev empty : Dir
empty = record { cert = absent; key = absent }

abbrev made_identity : Identity
made_identity = record { chain = (1 ∷ []) ∷ []; private_key = 2 ∷ []; device_id = replicate 32 7 }

first_run :
    load_or_create_identity hash library true made_pair all_well all_well empty
    ≡ (cert_and_key, ok made_identity)
unfolding load_or_create_identity from_files create_identity generate_identity persist_identity
    persist_encoded first_cert write_both write_file_atomic persisted device_id_from_cert bytes_eq
first_run = refl

load_or_create_identity_again_example :
    load_or_create_identity hash library true none all_well all_well cert_and_key
    ≡ (cert_and_key, ok made_identity)
load_or_create_identity_again_example =
    load_or_create_identity_again hash library Fits pem_reads true made_pair none all_well all_well
      all_well all_well empty cert_and_key made_identity made-Fits first_run
