-- ===== src/Telnet/Stream.antt =====
-- The telnet layer over a stream of bytes: how it is cut into reads does not matter, and data
-- that is escaped comes through as it was.
use mutineer.Prelude.{
  ℕ, ◌+◌, ◌≤◌, ◌<◌, ◌≡◌, refl, sym, ap, ◌∙◌, true, false, List, [], ◌∷◌, ◌++◌, ◌==◌, if◌then◌else◌,
  length, length-append, append_assoc, append-nil, arith, Bool-cases, inl, inr,
}
use mutineer.Telnet.{
  TelnetState, Feed, ParserState, st_data, st_iac, st_iac_cmd, handle_iac_cmd, feed_in, feed_byte,
  feed_from, telnet_feed, iac,
}

-- The same run behind bytes that were written and sent before.
abbrev behind : List ℕ → List ℕ → Feed → Feed
behind o s g = record { tn = g.tn; out = o ++ g.out; sent = s ++ g.sent }

feed_in-behind :
    (room room' : ℕ) (st : ParserState) (o s : List ℕ) (g : Feed) (b : ℕ)
    → length (o ++ g.out) < room
    → length g.out < room'
    → feed_in room st (behind o s g) b ≡ behind o s (feed_in room' st g b)
unfolding feed_in
feed_in-behind room room' st_data o s g b h h' = ground (arith, append_assoc o g.out (b ∷ []))
feed_in-behind room room' st_iac o s g b h h' = ground (arith, append_assoc o g.out (255 ∷ []))
feed_in-behind room room' st_iac_cmd o s g b h h' =
    ground (arith, append_assoc s g.sent (handle_iac_cmd g.tn.cmd b))
feed_in-behind room room' _ o s g b h h' = ground arith

feed_in-grows :
    (room : ℕ) (st : ParserState) (g : Feed) (b : ℕ)
    → length (feed_in room st g b).out ≤ length g.out + 1
unfolding feed_in
feed_in-grows room st_data g b = ground (arith, length-append g.out (b ∷ []))
feed_in-grows room st_iac g b = ground (arith, length-append g.out (255 ∷ []))
feed_in-grows room _ g b = ground arith

feed_from-behind :
    (bs : List ℕ) (room room' : ℕ) (o s : List ℕ) (g : Feed)
    → length (o ++ g.out) + length bs ≤ room
    → length g.out + length bs ≤ room'
    → feed_from room (behind o s g) bs ≡ behind o s (feed_from room' g bs)
unfolding feed_from
feed_from-behind [] room room' o s g h h' = refl
feed_from-behind (b ∷ bs) room room' o s g h h' =
    ap (λ f. feed_from room f bs)
      (feed_in-behind room room' g.tn.st o s g b (omega arith) (omega arith))
    ∙ feed_from-behind bs room room' o s (feed_in room' g.tn.st g b)
        (omega
          (arith, grown, length-append o g.out, length-append o (feed_in room' g.tn.st g b).out))
        (omega (arith, grown))
  where
    grown : length (feed_in room' g.tn.st g b).out ≤ length g.out + 1
    grown = feed_in-grows room' g.tn.st g b

feed_from-append :
    (xs ys : List ℕ) (room : ℕ) (f : Feed)
    → feed_from room f (xs ++ ys) ≡ feed_from room (feed_from room f xs) ys
unfolding feed_from
feed_from-append [] ys room f = refl
feed_from-append (x ∷ xs) ys room f = feed_from-append xs ys room (feed_byte room f x)

feed_from-grows :
    (bs : List ℕ) (room : ℕ) (g : Feed)
    → length (feed_from room g bs).out ≤ length g.out + length bs
unfolding feed_from
feed_from-grows [] room g = omega arith
feed_from-grows (b ∷ bs) room g =
    omega (arith, feed_in-grows room g.tn.st g b, feed_from-grows bs room (feed_byte room g b))

-- However a stream is cut into two reads, if each of the three output buffers has room for all the
-- bytes that are read into it, the telnet layer gives the same data, replies and state as on the
-- whole in one read.
pub telnet_feed-append :
    (tn : TelnetState) (xs ys : List ℕ) (room room1 room2 : ℕ)
    → length xs + length ys ≤ room
    → length xs ≤ room1
    → length ys ≤ room2
    → let first = telnet_feed tn xs room1 in
      let second = telnet_feed first.tn ys room2 in
      telnet_feed tn (xs ++ ys) room
      ≡ record { tn = second.tn; out = first.out ++ second.out; sent = first.sent ++ second.sent }
unfolding telnet_feed
telnet_feed-append tn xs ys room room1 room2 h h1 h2 =
    feed_from-append xs ys room start
    ∙ ap (λ f. feed_from room f ys)
        (feed_from-behind xs room room1 [] [] start (omega arith) (omega arith))
    ∙ ap (λ o. feed_from room (record { tn = first.tn; out = o; sent = first.sent }) ys)
        (sym (append-nil first.out))
    ∙ ap (λ s. feed_from room (record { tn = first.tn; out = first.out ++ []; sent = s }) ys)
        (sym (append-nil first.sent))
    ∙ feed_from-behind ys room room2 first.out first.sent
        (record { tn = first.tn; out = []; sent = [] })
        (omega (arith, feed_from-grows xs room1 start, length-append first.out [])) (omega arith)
  where
    start : Feed
    start = record { tn = tn; out = []; sent = [] }

    first : Feed
    first = feed_from room1 start xs

-- Data with its 255 bytes doubled, as RFC 854 asks of a sender.
abbrev pub escape : List ℕ → List ℕ
escape [] = []
escape (b ∷ bs) = if b == iac then iac ∷ iac ∷ escape bs else b ∷ escape bs

feed_byte_plain :
    (b room : ℕ) (f : Feed)
    → f.tn.st ≡ st_data
    → length f.out < room
    → (b == iac) ≡ false
    → feed_byte room f b ≡ record f { out = f.out ++ b ∷ [] }
unfolding feed_byte feed_in
feed_byte_plain b room f s h e = ground arith

feed_byte_doubled :
    (b room : ℕ) (f : Feed)
    → f.tn.st ≡ st_data
    → length f.out < room
    → (b == iac) ≡ true
    → feed_byte room (feed_byte room f iac) iac ≡ record f { out = f.out ++ b ∷ [] }
unfolding feed_byte feed_in
feed_byte_doubled b room f s h e = ground arith

feed_byte-escaped :
    (b room : ℕ) (f : Feed) (rest : List ℕ)
    → f.tn.st ≡ st_data
    → length f.out < room
    → feed_from room f (if b == iac then iac ∷ iac ∷ rest else b ∷ rest)
      ≡ feed_from room (record f { out = f.out ++ b ∷ [] }) rest
unfolding feed_from
feed_byte-escaped b room f rest s h = elim (Bool-cases (b == iac)) [
  | inl e ↦ rw e (ap (λ g. feed_from room g rest) (feed_byte_doubled b room f s h e))
  | inr e ↦ rw e (ap (λ g. feed_from room g rest) (feed_byte_plain b room f s h e))
]

feed_from-escape :
    (bs : List ℕ) (room : ℕ) (f : Feed)
    → f.tn.st ≡ st_data
    → length f.out + length bs ≤ room
    → feed_from room f (escape bs) ≡ record f { out = f.out ++ bs }
unfolding feed_from
feed_from-escape [] room f s h = ap (λ o. record f { out = o }) (sym (append-nil f.out))
feed_from-escape (b ∷ bs) room f s h =
    feed_byte-escaped b room f (escape bs) s (omega arith)
    ∙ feed_from-escape bs room (record f { out = f.out ++ b ∷ [] }) s
        (omega (arith, length-append f.out (b ∷ [])))
    ∙ ap (λ o. record f { out = o }) (append_assoc f.out (b ∷ []) bs)

-- In the data state (in no command and no subnegotiation), data of any bytes that fits into the
-- output buffer, sent with its 255 bytes doubled, comes out as it was, with no reply and the state
-- as before.
pub telnet_feed-escape :
    (tn : TelnetState) (bs : List ℕ) (room : ℕ)
    → tn.st ≡ st_data
    → length bs ≤ room
    → telnet_feed tn (escape bs) room ≡ record { tn = tn; out = bs; sent = [] }
unfolding telnet_feed
telnet_feed-escape tn bs room s h = feed_from-escape bs room _ s (omega arith)
