-- ===== src/Telnet/Negotiation.antt =====
-- Commands and subnegotiations, each as a whole sequence of bytes.
use mutineer.Prelude.{
  ℕ, zero, suc, ◌+◌, ◌-◌, ◌/◌, ◌%◌, ◌≤◌, ◌<◌, ◌≡◌, refl, sym, ap, ◌∙◌, ◌⊎◌, true, false, ◌&&◌, ◌||◌,
  List, [], ◌∷◌, ◌++◌, ltb, leb, ◌==◌, if◌then◌else◌, length, length-append, append_assoc,
  append-nil, arith, Bool-cases, inl, inr, take, drop, ◌≢◌,
}
use mutineer.Telnet.{
  TelnetState, Feed, st_data, st_sb, st_sb_iac, handle_iac_cmd, process_sb, set_window,
  set_term_type, feed_in, feed_byte, feed_from, iac, do', dont, will, wont, sb, se, telopt_echo,
  telopt_sga, telopt_naws, telopt_ttype,
}

-- A payload with its 255 bytes doubled, in front of `rest`.
abbrev pub escape_onto : List ℕ → List ℕ → List ℕ
escape_onto [] rest = rest
escape_onto (b ∷ bs) rest =
    if b == iac then iac ∷ iac ∷ escape_onto bs rest else b ∷ escape_onto bs rest

-- The answers that RFC 854 allows a server which itself echoes and suppresses go-aheads, and asks
-- for the window size and the terminal type: DO and WILL are accepted for these options and
-- refused for any other; DONT and WONT are not answered.
pub data Answer (cmd opt : ℕ) : List ℕ → Type 0 where
  perform :
      cmd ≡ do' → (opt ≡ telopt_sga) ⊎ (opt ≡ telopt_echo) → Answer cmd opt (iac ∷ will ∷ opt ∷ [])
  decline :
      cmd ≡ do' → opt ≢ telopt_sga → opt ≢ telopt_echo → Answer cmd opt (iac ∷ wont ∷ opt ∷ [])
  ask :
      cmd ≡ will
      → (opt ≡ telopt_sga) ⊎ (opt ≡ telopt_naws) ⊎ (opt ≡ telopt_ttype)
      → Answer cmd opt (iac ∷ do' ∷ opt ∷ [])
  forbid :
      cmd ≡ will
      → opt ≢ telopt_sga
      → opt ≢ telopt_naws
      → opt ≢ telopt_ttype
      → Answer cmd opt (iac ∷ dont ∷ opt ∷ [])
  silence : (cmd ≡ dont) ⊎ (cmd ≡ wont) → Answer cmd opt []

abbrev pub IsCommand : ℕ → Type 0
IsCommand cmd = (cmd ≡ do') ⊎ (cmd ≡ dont) ⊎ (cmd ≡ will) ⊎ (cmd ≡ wont)

do-Answer : (opt : ℕ) → Answer do' opt (handle_iac_cmd do' opt)
unfolding handle_iac_cmd
do-Answer opt = elim (Bool-cases (opt == telopt_sga || opt == telopt_echo)) [
  | inl e ↦ rw e (perform refl (ground arith))
  | inr e ↦ rw e (decline refl (ground arith) (ground arith))
]

will-Answer : (opt : ℕ) → Answer will opt (handle_iac_cmd will opt)
unfolding handle_iac_cmd
will-Answer opt =
    elim (Bool-cases (opt == telopt_sga || opt == telopt_naws || opt == telopt_ttype)) [
      | inl e ↦ rw e (ask refl (ground arith))
      | inr e ↦ rw e (forbid refl (ground arith) (ground arith) (ground arith))
    ]

handle_iac_cmd-Answer : (cmd opt : ℕ) → IsCommand cmd → Answer cmd opt (handle_iac_cmd cmd opt)
handle_iac_cmd-Answer cmd opt (inl c) = rw c (do-Answer opt)
handle_iac_cmd-Answer cmd opt (inr (inl c)) = rw c (unfold handle_iac_cmd in silence (inl refl))
handle_iac_cmd-Answer cmd opt (inr (inr (inl c))) = rw c (will-Answer opt)
handle_iac_cmd-Answer cmd opt (inr (inr (inr c))) =
    rw c (unfold handle_iac_cmd in silence (inr refl))

command_steps :
    (f : Feed) (room cmd opt : ℕ)
    → f.tn.st ≡ st_data
    → IsCommand cmd
    → feed_byte room (feed_byte room (feed_byte room f iac) cmd) opt
      ≡ record f { tn = record (f.tn) { cmd = cmd }; sent = f.sent ++ handle_iac_cmd cmd opt }
unfolding feed_byte feed_in
command_steps f room cmd opt s c = ground arith

-- Between commands a complete command with its option, in one read or several, writes no data,
-- sends exactly the one answer that fits it, and changes nothing but the command last seen.
pub command-Answer :
    (f : Feed) (room cmd opt : ℕ)
    → f.tn.st ≡ st_data
    → IsCommand cmd
    → (reply : List ℕ) × Answer cmd opt reply
      × (feed_from room f (iac ∷ cmd ∷ opt ∷ [])
          ≡ record f { tn = record (f.tn) { cmd = cmd }; sent = f.sent ++ reply })
command-Answer f room cmd opt s c = (
  handle_iac_cmd cmd opt,
  handle_iac_cmd-Answer cmd opt c,
  unfold feed_from in command_steps f room cmd opt s c,
)

-- What a subnegotiation of the payload `p` leaves.
abbrev pub negotiated : TelnetState → List ℕ → TelnetState
negotiated tn p = record (process_sb (record tn { sb_buf = p; st = st_sb_iac })) { st = st_data }

module _ (room : ℕ) where
  begin_steps :
      (f : Feed)
      → f.tn.st ≡ st_data
      → feed_byte room (feed_byte room f iac) sb
        ≡ record f { tn = record (f.tn) { sb_buf = []; st = st_sb } }
  unfolding feed_byte feed_in
  begin_steps f s = ground arith

  end_steps :
      (f : Feed)
      → f.tn.st ≡ st_sb
      → feed_byte room (feed_byte room f iac) se ≡ record f { tn = negotiated f.tn f.tn.sb_buf }
  unfolding feed_byte feed_in
  end_steps f s = ground arith

  payload_plain :
      (f : Feed) (b : ℕ)
      → f.tn.st ≡ st_sb
      → length f.tn.sb_buf < 128
      → (b == iac) ≡ false
      → feed_byte room f b ≡ record f { tn = record (f.tn) { sb_buf = f.tn.sb_buf ++ b ∷ [] } }
  unfolding feed_byte feed_in
  payload_plain f b s h e = ground arith

  payload_doubled :
      (f : Feed) (b : ℕ)
      → f.tn.st ≡ st_sb
      → length f.tn.sb_buf < 128
      → (b == iac) ≡ true
      → feed_byte room (feed_byte room f iac) iac
        ≡ record f { tn = record (f.tn) { sb_buf = f.tn.sb_buf ++ b ∷ [] } }
  unfolding feed_byte feed_in
  payload_doubled f b s h e = ground arith

  payload_byte :
      (f : Feed) (b : ℕ) (rest : List ℕ)
      → f.tn.st ≡ st_sb
      → length f.tn.sb_buf < 128
      → feed_from room f (if b == iac then iac ∷ iac ∷ rest else b ∷ rest)
        ≡ feed_from room (record f { tn = record (f.tn) { sb_buf = f.tn.sb_buf ++ b ∷ [] } }) rest
  unfolding feed_from
  payload_byte f b rest s h = elim (Bool-cases (b == iac)) [
    | inl e ↦ rw e (ap (λ g. feed_from room g rest) (payload_doubled f b s h e))
    | inr e ↦ rw e (ap (λ g. feed_from room g rest) (payload_plain f b s h e))
  ]

  payload_all :
      (p : List ℕ) (f : Feed) (rest : List ℕ)
      → f.tn.st ≡ st_sb
      → length f.tn.sb_buf + length p ≤ 128
      → feed_from room f (escape_onto p rest)
        ≡ feed_from room (record f { tn = record (f.tn) { sb_buf = f.tn.sb_buf ++ p } }) rest
  payload_all [] f rest s h =
      ap (λ q. feed_from room (record f { tn = record (f.tn) { sb_buf = q } }) rest)
        (sym (append-nil f.tn.sb_buf))
  payload_all (b ∷ p) f rest s h =
      payload_byte f b (escape_onto p rest) s (omega arith)
      ∙ payload_all p (record f { tn = record (f.tn) { sb_buf = f.tn.sb_buf ++ b ∷ [] } }) rest s
          (omega (arith, length-append f.tn.sb_buf (b ∷ [])))
      ∙ ap (λ q. feed_from room (record f { tn = record (f.tn) { sb_buf = q } }) rest)
          (append_assoc f.tn.sb_buf (b ∷ []) p)

  -- A subnegotiation of up to 128 bytes of any values, with its 255 bytes doubled, reaches
  -- `process_sb` as it was sent; it writes no data and sends nothing.
  pub subnegotiation_lem :
      (p : List ℕ) (f : Feed)
      → f.tn.st ≡ st_data
      → length p ≤ 128
      → feed_from room f (iac ∷ sb ∷ escape_onto p (iac ∷ se ∷ []))
        ≡ record f { tn = negotiated f.tn p }
  unfolding feed_from
  subnegotiation_lem p f s h =
      ap (λ g. feed_from room g (escape_onto p (iac ∷ se ∷ []))) (begin_steps f s)
      ∙ payload_all p (record f { tn = record (f.tn) { sb_buf = []; st = st_sb } }) (iac ∷ se ∷ [])
          refl (omega arith)
      ∙ end_steps (record f { tn = record (f.tn) { sb_buf = p; st = st_sb } }) refl

abbrev pub window_payload : ℕ → ℕ → List ℕ
window_payload w h = telopt_naws ∷ w / 256 ∷ w % 256 ∷ h / 256 ∷ h % 256 ∷ []

-- A client that reports a window of `w` by `h` (RFC 1073), both in 1 to 999, sets the size to just
-- that, whichever of its bytes are 255; a size of 0, or of 1000 to 65535, leaves the old value in
-- its direction. No data is written and nothing is sent.
pub window_report :
    (room w h : ℕ) (f : Feed)
    → f.tn.st ≡ st_data
    → w < 65536
    → h < 65536
    → let g = feed_from room f (iac ∷ sb ∷ escape_onto (window_payload w h) (iac ∷ se ∷ [])) in
      (g.tn.cols ≡ (if ltb 0 w && ltb w 1000 then w else f.tn.cols))
      × (g.tn.rows ≡ (if ltb 0 h && ltb h 1000 then h else f.tn.rows))
      × (g.tn.st ≡ st_data)
      × (g.tn.term_type ≡ f.tn.term_type)
      × (g.out ≡ f.out)
      × (g.sent ≡ f.sent)
window_report room w h f s hw hh =
    rw (subnegotiation_lem room (window_payload w h) f s (omega arith))
      (unfold process_sb set_window in ground arith)

take_all : (n : ℕ) (xs : List ℕ) → length xs ≤ n → take n xs ≡ xs
take_all zero [] h = refl
take_all zero (x ∷ xs) h = absurd (omega arith)
take_all (suc n) [] h = refl
take_all (suc n) (x ∷ xs) h = ap (◌∷◌ x) (take_all n xs (omega arith))

take_cut :
    (n : ℕ) (name : List ℕ)
    → n ≡ length name
    → take (if leb 64 n then 63 else n) name ≡ take 63 name
take_cut n name e = elim (Bool-cases (leb 64 n)) [
  | inl q ↦ rw q
  | inr q ↦ rw q (take_all n name (omega arith) ∙ sym (take_all 63 name (ground arith)))
]

set_term_type_cut :
    (tn : TelnetState) (name : List ℕ)
    → tn.sb_buf ≡ telopt_ttype ∷ 0 ∷ name
    → set_term_type tn ≡ record tn { term_type = take 63 name }
unfolding set_term_type
set_term_type_cut tn name e =
    let n = length tn.sb_buf - 2 in
    ap (λ t. record tn { term_type = t })
      (ap (λ xs. take (if leb 64 n then 63 else n) (drop 2 xs)) e
        ∙ take_cut n name (omega (arith, ap (length {A = ℕ}) e)))

process_ttype :
    (tn : TelnetState) (name : List ℕ)
    → tn.sb_buf ≡ telopt_ttype ∷ 0 ∷ name
    → 0 < length name
    → process_sb tn ≡ set_term_type tn
unfolding process_sb
process_ttype tn name e h = ground arith

-- A terminal type (RFC 1091) of 1 to 126 bytes is stored whole if it leaves a place for the
-- terminator in the 64, and otherwise cut to its first 63 bytes.
pub term_type_report :
    (room : ℕ) (name : List ℕ) (f : Feed)
    → f.tn.st ≡ st_data
    → 0 < length name
    → length name ≤ 126
    → let g = feed_from room f (iac ∷ sb ∷ escape_onto (telopt_ttype ∷ 0 ∷ name) (iac ∷ se ∷ [])) in
      (g.tn.term_type ≡ take 63 name) × (g.tn.cols ≡ f.tn.cols) × (g.tn.rows ≡ f.tn.rows)
term_type_report room name f s h hn =
    rw
      (
        subnegotiation_lem room (telopt_ttype ∷ 0 ∷ name) f s (omega arith),
        process_ttype (record (f.tn) { sb_buf = telopt_ttype ∷ 0 ∷ name; st = st_sb_iac }) name refl
            h,
        set_term_type_cut (record (f.tn) { sb_buf = telopt_ttype ∷ 0 ∷ name; st = st_sb_iac }) name
            refl,
      )
      (refl, refl, refl)
