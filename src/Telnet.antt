-- ===== src/Telnet.antt =====
-- src/telnet.c: the telnet layer of a caller's connection, which strips the protocol's commands
-- from the bytes read and answers them. Bytes are numbers below 256.
pub mod Bounds
pub mod Stream
pub mod Negotiation
mod Tests
use mutineer.Prelude.{
  ℕ, ◌+◌, ◌-◌, ◌*◌, ◌<◌, Bool, true, false, ◌&&◌, ◌||◌, List, [], ◌∷◌, ◌++◌, ltb, leb, ◌==◌,
  if◌then◌else◌, length, take, drop, get_or,
}

abbrev pub iac : ℕ
iac = 255

abbrev pub dont : ℕ
dont = 254

abbrev pub do' : ℕ
do' = 253

abbrev pub wont : ℕ
wont = 252

abbrev pub will : ℕ
will = 251

abbrev pub sb : ℕ
sb = 250

abbrev pub se : ℕ
se = 240

abbrev pub telopt_echo : ℕ
telopt_echo = 1

abbrev pub telopt_sga : ℕ
telopt_sga = 3

abbrev pub telopt_ttype : ℕ
telopt_ttype = 24

abbrev pub telopt_naws : ℕ
telopt_naws = 31

abbrev pub ttype_is : ℕ
ttype_is = 0

abbrev pub ttype_send : ℕ
ttype_send = 1

abbrev pub sb_buf_size : ℕ
sb_buf_size = 128

abbrev pub term_type_size : ℕ
term_type_size = 64

-- The parser's states; `st_other` is any int that is none of the five.
pub data ParserState : Type 0 where
  st_data st_iac st_iac_cmd st_sb st_sb_iac st_other : ParserState

-- `sb_buf` is the part of the array that is filled, so sb_len is its length; `term_type` is the
-- part before the terminator that the code writes.
pub record TelnetState : Type 0 where
  pub cols : ℕ
  pub rows : ℕ
  pub st : ParserState
  pub cmd : ℕ
  pub sb_opt : ℕ
  pub sb_buf : List ℕ
  pub term_type : List ℕ

-- What a call leaves: the state, the bytes written to `out`, and the bytes sent to the descriptor.
pub record Feed : Type 0 where
  pub tn : TelnetState
  pub out : List ℕ
  pub sent : List ℕ

abbrev tn_send3 : ℕ → ℕ → ℕ → List ℕ
tn_send3 a b c = a ∷ b ∷ c ∷ []

abbrev tn_send_ttype_send : List ℕ
tn_send_ttype_send = iac ∷ sb ∷ telopt_ttype ∷ ttype_send ∷ iac ∷ se ∷ []

unfoldable pub send_initial : List ℕ
send_initial =
    tn_send3 iac will telopt_sga
    ++ (tn_send3 iac do' telopt_sga
        ++ (tn_send3 iac do' telopt_naws
            ++ (tn_send3 iac do' telopt_ttype
                ++ (tn_send3 iac will telopt_echo ++ tn_send_ttype_send))))

unfoldable pub password_begin : List ℕ
password_begin = tn_send3 iac will telopt_echo ++ tn_send3 iac do' telopt_sga

unfoldable pub password_end : List ℕ
password_end = tn_send3 iac will telopt_echo ++ tn_send3 iac do' telopt_sga

-- The reply to a command.
unfoldable pub handle_iac_cmd : ℕ → ℕ → List ℕ
handle_iac_cmd cmd opt =
    if cmd == do'
    then (if opt == telopt_sga || opt == telopt_echo
        then tn_send3 iac will opt
        else tn_send3 iac wont opt)
    else if cmd == will
    then (if opt == telopt_sga || opt == telopt_naws || opt == telopt_ttype
        then tn_send3 iac do' opt
        else tn_send3 iac dont opt)
    else []

-- (hi << 8) | lo of two bytes.
abbrev pub word_at : List ℕ → ℕ → ℕ
word_at bs i = get_or bs i 0 * 256 + get_or bs (i + 1) 0

unfoldable pub set_window : TelnetState → ℕ → ℕ → TelnetState
set_window tn w h = record tn {
  cols = if ltb 0 w && ltb w 1000 then w else tn.cols;
  rows = if ltb 0 h && ltb h 1000 then h else tn.rows;
}

-- The bytes behind the option and IS, cut to leave a place for the terminator.
unfoldable pub set_term_type : TelnetState → TelnetState
set_term_type tn =
    let n = length tn.sb_buf - 2 in
    record tn {
      term_type = take (if leb term_type_size n then term_type_size - 1 else n) (drop 2 tn.sb_buf);
    }

unfoldable pub process_sb : TelnetState → TelnetState
process_sb tn =
    let len = length tn.sb_buf in
    let opt = get_or tn.sb_buf 0 0 in
    if ltb len 1
    then tn
    else if opt == telopt_naws
    then (if leb 5 len then set_window tn (word_at tn.sb_buf 1) (word_at tn.sb_buf 3) else tn)
    else if opt == telopt_ttype
    then (if leb 3 len && get_or tn.sb_buf 1 0 == ttype_is then set_term_type tn else tn)
    else tn

abbrev emit : ℕ → Feed → ℕ → Feed
emit out_cap f b = if ltb (length f.out) out_cap then record f { out = f.out ++ b ∷ [] } else f

abbrev goto : Feed → ParserState → Feed
goto f s = record f { tn = record (f.tn) { st = s } }

abbrev collect : Feed → ℕ → Feed
collect f b =
    if ltb (length f.tn.sb_buf) sb_buf_size
    then record f { tn = record (f.tn) { sb_buf = f.tn.sb_buf ++ b ∷ [] } }
    else f

-- The body of the loop, by the parser's state.
unfoldable pub feed_in : ℕ → ParserState → Feed → ℕ → Feed
feed_in out_cap st_data f b = if b == iac then goto f st_iac else emit out_cap f b
feed_in out_cap st_iac f b =
    if b == iac
    then goto (emit out_cap f iac) st_data
    else if b == do' || b == dont || b == will || b == wont
    then record f { tn = record (f.tn) { cmd = b; st = st_iac_cmd } }
    else if b == sb
    then record f { tn = record (f.tn) { sb_buf = []; st = st_sb } }
    else goto f st_data
feed_in out_cap st_iac_cmd f b = record f {
  sent = f.sent ++ handle_iac_cmd f.tn.cmd b;
  tn = record (f.tn) { st = st_data };
}
feed_in out_cap st_sb f b = if b == iac then goto f st_sb_iac else collect f b
feed_in out_cap st_sb_iac f b =
    if b == se
    then record f { tn = record (process_sb f.tn) { st = st_data } }
    else if b == iac
    then goto (collect f iac) st_sb
    else goto f st_sb
feed_in out_cap st_other f b = goto f st_data

unfoldable pub feed_byte : ℕ → Feed → ℕ → Feed
unfolding feed_in
feed_byte out_cap f b = feed_in out_cap f.tn.st f b

unfoldable pub feed_from : ℕ → Feed → List ℕ → Feed
unfolding feed_byte
feed_from out_cap f [] = f
feed_from out_cap f (b ∷ bs) = feed_from out_cap (feed_byte out_cap f b) bs

unfoldable pub telnet_feed : TelnetState → List ℕ → ℕ → Feed
unfolding feed_from
telnet_feed tn bs out_cap = feed_from out_cap (record { tn = tn; out = []; sent = [] }) bs
