-- ===== src/Lib.antt =====
-- FLChat: its data service and controllers, and the C code that is compiled into it.
--
-- FLChat is a chat application in Swift for iOS (FLChat/FLChat). It keeps users, friend requests,
-- friendships and messages in a Firebase database: `DataService` reads and writes them, and the view
-- controllers call it. Everything goes through the Firebase libraries under FLChat/Pods; of their C code,
-- nanopb and the base-64 routines are modelled too. Both are copies of other projects' sources.
--
-- Parts
--   App           the application's own code.
--   App.Values    what the database holds, and `Attempt`, how Swift code ends: `ok` with a result, `skip`
--                 by the return of a guard, `crash` where nil is unwrapped.
--   App.Database  the Firebase database, which the application only calls, as an interface: `Database`
--                 has its operations and `IsFirebase` their documented laws. A database is a tree;
--                 `leaf` is the scalar at a path, `keys` the children in the order of childAdded.
--                 Memory is a database that meets the laws, for the runs.
--   App.Models    Models/User.swift, Users.swift, Message.swift.
--   App.Service, App.Search  Services/DataService.swift: what it writes, and its searches. A write takes
--                 the server's answer as an argument: refused, it changes nothing; for removals
--                 the argument says at which paths the server accepts them. `observe` is the
--                 sequence of arrays that a completion block gets.
--   App.Requests  Controllers/SelectNewUserFriendVC.swift and SelectAllRequestVC.swift: the buttons that
--                 send a friend request and accept one, composed as their completion blocks are.
--   App.Messages  Controllers/MessageVC.swift and imageView+Extention.swift. Sending, watching a
--                 conversation, the screen and its cells; a picture that is not in the cache arrives in
--                 a later step.
--   App.Account, App.LogIn  Controllers/SettingsVC.swift, LogInVC.swift and AppDelegate.swift: settings,
--                 logging in and out, with the answers of Auth and of the storage as arguments.
--                 The proofs: Records, WellFormed, Kept, Removed and RemovedKeeps (the users in requests and
--                 friendships, and which writes keep them), Observe, Listed and Exact (what the searches find),
--                 Delivery, Accepted and Friendship (a request, sent and accepted), Conversation and
--                 ConversationKept (messages), Screen, Settings, Registered and Sessions.
--   Base          numbers, lists, Boolean tests, bit operations by arithmetic, and memory: a function
--                 from addresses to bytes, with little-endian words (Base.Memory).
--   Pb            FLChat/Pods/nanopb/pb.h: descriptors (`Field`), wire types, error messages, and
--                 `Outcome`, the result of a C function that takes a stream: `return true` with what
--                 it stores through its output arguments, or `return false`, both with the stream as
--                 it is left.
--   Pb.Istream    pb_decode.c: `pb_istream_t` and `pb_read`, `pb_readbyte`, `buf_read`. The callback
--                 is a function on its own state; it does not change `bytes_left` or `errmsg`.
--   Pb.Decode     pb_decode.c: varints, tags, `pb_skip_field`, `read_raw_value`, substreams and the
--                 scalar decoders. Its children hold the proofs: Reads (what is taken from a buffer),
--                 Varint, Varint32, Varint32Signed, Scalars, Substream, Skip, Bounds, FieldBounds.
--   Pb.Ostream    pb_encode.c: `pb_ostream_t`, `pb_write`, `buf_write`. A stream into a buffer has
--                 the whole memory as its state, so that a write outside the buffer would show.
--   Pb.Encode     pb_encode.c: varints, fixed-width words, tags and strings. Its children: Shape (the
--                 digits in base 128), Writes (what is written), Scalars, Confined (the memory).
--   Pb.Iter       pb_common.c: the iterator over the fields of a message, with positions as indices
--                 into the list of descriptors; Find, Place and Along hold the proofs.
--   Pb.EncodeField  pb_encode.c: `pb_enc_varint` to `pb_enc_fixed_length_bytes`, which read a
--                 structure in a memory; Text holds the proofs on strings.
--   Pb.DecodeField  pb_decode.c: `pb_dec_varint` to `pb_dec_fixed_length_bytes` and
--                 `allocate_field`, which write into a memory; `Work` is the stream with that memory,
--                 and `realloc` of the C library is a parameter. Callback, Inside, Static and
--                 Allocate hold the proofs.
--   Pb.RoundTrip  the encoders into a buffer, followed by the decoders from it:
--                 numbers, tags and strings (Fields), and the fields of a structure (Strings,
--                 Integers).
--   Pb.Program, Pb.Proto3, Pb.EncodeArray, Pb.EncodeMessage  pb_encode.c: messages, from
--                 `encode_array` and `encode_field` to `pb_encode` and `pb_get_encoded_size`. The
--                 structure stands in a memory; `Program` holds the descriptors at each address and
--                 the application's functions, which are parameters.
--   Pb.Present    which optional fields are written, as a specification along the list of fields;
--                 Agrees shows that the tests of pb_encode.c agree with it.
--   Pb.Format     the wire format of a structure as a list of bytes, the specification of
--                 `pb_encode`. Rules, Arrays, Values, Fields and Message carry it over to the
--                 encoders, one rule for each way to build one; Streams has the results on streams.
--   Pb.DecodeMessage  pb_decode.c: messages, from `decode_static_field` to `pb_release`. Services
--                 (what the application and the C library give: descriptors, functions, `realloc`,
--                 `free`), Defaults, Release, Substream, Static, Pointer, Fields (one field, unions,
--                 callbacks, extensions) and Messages (`pb_decode_noinit`, `pb_decode`) hold the
--                 definitions; Required, Search, Unknown, Unread and Area hold the
--                 proofs.
--   Base64        FLChat/Pods/FirebaseDatabase/Firebase/Database/third_party/SocketRocket/fbase64.c:
--                 `f_b64_ntop` and `f_b64_pton`; Table, Encode, Decode and RoundTrip hold the proofs.
--
-- Numbers
--   All numbers are natural; a word of w bits is below 2^w, a signed word is given by its pattern, and
--   wrap-around is written out. `size_t` has 64 bits; `pb_size_t` has 32 (PB_FIELD_32BIT).
--
-- Loops and fuel
--   A loop that is not over a list takes fuel, and `stuck` is its outcome without: 11 rounds for
--   `pb_decode_varint`, whose eleventh fails on the bit position; `bytes_left` + 1 rounds for the
--   loops that take a byte a round; `count` + 1 for the one that skips 16 at a time. `bytes_left`
--   falls with each byte, so these rounds are enough. `find_loop` takes a round for each field and one more.
--   `pb_encode_varint` has 10 rounds, enough for the seven bits of each byte of a 64-bit number.
--
--   In messages, `depth` bounds how deep submessages and extensions are nested, `rounds` how long a
--   linked list of extensions is and how often the callback for a string runs; both are arguments.
--   The loops over fields have a round for each field and one more, those over packed entries and
--   over the fields of a stream a round for each byte and one more.
--
--   The application's loops run over the keys that the database gives, and need no fuel.
--
-- Not modelled
--   What C leaves undefined is `stuck`: a data type without an encoder, a union without its tag.
--   Listeners after their first events: a search is run on a database that does not change meanwhile,
--   and the database's answers come in the order of the questions. A time or a size is a natural
--   number, which the application only stores and returns. Layout, keyboard, alerts, zooming and the
--   collection views of the lists are left out: they keep no state of the program. The other libraries
--   are only called, or not used at all.
pub mod App
pub mod Base
pub mod Base64
pub mod Pb
