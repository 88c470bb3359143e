-- ===== src/Lib.antt =====
-- The verification library of Mutineer BBS.
--
-- Mutineer BBS is a bulletin board server: callers come in over telnet, run menus, doors and
-- plugins that access control strings guard, chat with each other, and run scripts in the Buccaneer
-- language; boards exchange messages over the PLANK network, whose objects are canonical CBOR and
-- whose parties have addresses. This library models eight of its parts and proves what makes each of
-- them correct.
--
-- Cbor is src/plank/plank_cbor.c with include/plank/plank_cbor.h. Cbor.Encoder has cbor_encoder_t as
-- a record of the bytes written and one function for each cbor_encode function, Cbor.Decoder
-- cbor_decoder_t and the cbor_decode functions, Cbor.Skip cbor_skip, cbor_validate,
-- cbor_map_find_key and cbor_decode_map_foreach, Cbor.MapBuilder the builder of sorted maps.
-- size_t and uint64_t wrap at 2^64 where the code adds them. Allocation and qsort are parameters.
--
-- Telnet is src/telnet.c: telnet_feed byte by byte, process_sb and handle_iac_cmd; what the code
-- sends to the descriptor is an output.
--
-- Acs is src/acs.c with the flags of include/bbs_flags.h: Acs.Tokens has the tests of a token,
-- Acs.Parser eval_term, eval_factor, eval_expr and acs_allows on the text that is left with the
-- grammar that they read, Acs.Check acs_check, Acs.Ints C's int. The C library's numbers, dates and
-- doubles and the two queries of the database are fields of a record that the tests take.
--
-- Address is the address part of src/plank/plank_core.c: plank_format, plank_parse and plank_validate
-- for nodes, users and areas, and plank_canonicalize_addr.
--
-- Registry is src/plugin_registry.c: the array of plugins up to its count, and one function for each
-- plugin_registry function. A call holds the mutex throughout and is one step; Registry.Calls has the
-- sequences of calls.
--
-- Chat is the state of the chat plugin, plugins/chat/mts_state.c and mts_render.c with mts.h: the
-- heap of sessions is a function from pointers. Chat.Queue has enqueue and mts_drain over the ring of
-- Chat.Ring, Chat.Utf8 decode, mts_utf8_sanitize, mts_display_width and mts_clip_width, Chat.Publish
-- mts_publish in the order of its loops, Chat.Rooms mts_join and mts_leave, Chat.Lookup
-- mts_find_room, mts_find_user and mts_parse_duration. The tables of the store and the clock are
-- parameters; what is written to the store is an output. mts_join and mts_leave are cut where they
-- release the lock MTS.mu, and the sections of several threads' calls may alternate; the other calls
-- run without another between.
--
-- Process is the part of src/process.c that makes arguments of a command line, with the substitution
-- of the file's or the directory's name: bbs_argv_parse_template and bbs_argv_parse_door_template.
--
-- Buccaneer is src/buccaneer/value.c: the strings, arrays and maps of scripts. A heap object is a
-- number; each operation gives the list of the objects that it retains and releases, in the code's
-- order. Buccaneer.Finite has the maps against finite maps, Buccaneer.Accounts the references.
-- Buccaneer.Lexer is src/buccaneer/lexer.c with bucc_lexer.h: the kinds of tokens and the keywords in
-- Kinds, the scanners in Scan, bucc_lexer_next, peek, match, skip_newlines and expect_newline in Next, the
-- names and classes of kinds in Words. A lexer has the bytes from its position on beside the position.
-- Buccaneer.Vm is src/buccaneer/vm.c with bucc_vm.h: bucc_vm_t is the record Machine, its calls on the
-- stack and the variables are in Vm, the cases of bucc_vm_step's switch in Vm.Ops, Objects and Control,
-- the opcodes and the step in Vm.Step, bucc_vm_new, reset, free, run and call in Vm.Run. What the machine
-- asks of value.c, of doubles, of the C library and of the host is the record World. The status
-- vm_undefined is the model's: it marks where the source's behaviour is undefined or bucc_value_equal
-- never returns.
--
-- Prelude has what the parts share: Boolean tests on native numbers and lists measured by them. The
-- parts meet in the program, not in the model: a PLANK object carries an address in CBOR, and a
-- session holds a telnet state, asks for access and enters the chat; none of these eight calls
-- another.
--
-- Recursion that is not structural runs on fuel, with `none` for none left. cbor_skip needs two steps
-- a byte, the access strings' parser three a byte and three more, acs_check and the command lines'
-- parsers one a byte and one more, skip_newlines one a byte and three more, bucc_vm_run one for each
-- instruction that the limit leaves and one more; that this is enough is proved, and for cbor_skip also that on some
-- inputs no fuel is.
--
-- Bytes are natural numbers, and a C string is the list of its bytes before the terminator. Locale
-- functions are those of the C locale. Integer overflow that C leaves undefined (the products of
-- ratios in acs.c, the count of instances of a plugin) is not modelled, nor are the NULL arguments of
-- the address formatters, error texts and logging (but for the refusals of command lines), and the
-- freeing of an object whose count comes to zero. Not modelled are the sessions, menus, the database
-- and doors, the start of processes, the chat's commands, storage and drawing, Buccaneer's parser,
-- emitter and modules, and PLANK's store, links, routing, policy and cryptography:
-- much of that code is input and output around SQLite, terminals and sockets, and the rest is left
-- for later.
pub mod Prelude
pub mod Cbor
pub mod Telnet
pub mod Registry
pub mod Address
pub mod Acs
pub mod Chat
pub mod Process
pub mod Buccaneer
