-- ===== src/Telnet/Bounds.antt =====
-- No array of the telnet state or of its caller overflows, whatever bytes come in.
use mutineer.Prelude.{
  ℕ, ◌-◌, ◌≤◌, ◌<◌, List, [], ◌∷◌, length, length-append, length-take, leb, if◌then◌else◌, drop,
  arith,
}
use mutineer.Telnet.{
  TelnetState, Feed, ParserState, st_data, st_iac, st_sb, st_sb_iac, feed_in, feed_from,
  telnet_feed, process_sb, set_window, set_term_type, word_at,
}

pub record IsBounded (tn : TelnetState) : Type 0 where
  pub sb_fits : length tn.sb_buf ≤ 128
  -- The terminator needs the last place.
  pub term_type_fits : length tn.term_type < 64
  pub cols_pos : 0 < tn.cols
  pub cols_small : tn.cols < 1000
  pub rows_pos : 0 < tn.rows
  pub rows_small : tn.rows < 1000

set_window-IsBounded : (tn : TelnetState) (w h : ℕ) → IsBounded tn → IsBounded (set_window tn w h)
unfolding set_window
set_window-IsBounded tn w h b = ground arith

cut : ℕ → ℕ
cut n = if leb 64 n then 63 else n

cut-lt : (n : ℕ) → cut n < 64
unfolding cut
cut-lt n = ground arith

set_term_type-IsBounded : (tn : TelnetState) → IsBounded tn → IsBounded (set_term_type tn)
unfolding set_term_type cut
set_term_type-IsBounded tn b = record {
  sb_fits = b.sb_fits;
  term_type_fits =
      let n = length tn.sb_buf - 2 in
      omega (arith, length-take (cut n) (drop 2 tn.sb_buf), cut-lt n);
  cols_pos = b.cols_pos;
  cols_small = b.cols_small;
  rows_pos = b.rows_pos;
  rows_small = b.rows_small;
}

process_sb-IsBounded : (tn : TelnetState) → IsBounded tn → IsBounded (process_sb tn)
unfolding process_sb
process_sb-IsBounded tn b = ground (
  arith,
  set_window-IsBounded tn (word_at tn.sb_buf 1) (word_at tn.sb_buf 3) b,
  set_term_type-IsBounded tn b,
)

feed_in-IsBounded :
    (cap : ℕ) (s : ParserState) (f : Feed) (b : ℕ)
    → length f.out ≤ cap
    → IsBounded f.tn
    → IsBounded (feed_in cap s f b).tn × (length (feed_in cap s f b).out ≤ cap)
unfolding feed_in
feed_in-IsBounded cap st_data f b o h = ground (arith, length-append f.out (b ∷ []))
feed_in-IsBounded cap st_iac f b o h = ground (arith, length-append f.out (255 ∷ []))
feed_in-IsBounded cap st_sb f b o h = ground (arith, length-append f.tn.sb_buf (b ∷ []))
feed_in-IsBounded cap st_sb_iac f b o h =
    ground (arith, length-append f.tn.sb_buf (255 ∷ []), process_sb-IsBounded f.tn h)
feed_in-IsBounded cap _ f b o h = ground arith

feed_from-IsBounded :
    (bs : List ℕ) (cap : ℕ) (f : Feed)
    → length f.out ≤ cap
    → IsBounded f.tn
    → IsBounded (feed_from cap f bs).tn × (length (feed_from cap f bs).out ≤ cap)
unfolding feed_from
feed_from-IsBounded [] cap f o h = (h, o)
feed_from-IsBounded (b ∷ bs) cap f o h =
    let (h', o') = feed_in-IsBounded cap f.tn.st f b o h in feed_from-IsBounded bs cap _ o' h'

-- Whatever bytes a caller sends, `telnet_feed` writes at most `out_cap` bytes, keeps the
-- subnegotiation buffer within its 128 bytes and the terminal type with its terminator within
-- 64, and leaves the window size between 1 and 999 in both directions.
pub telnet_feed-IsBounded :
    (tn : TelnetState) (bs : List ℕ) (out_cap : ℕ)
    → IsBounded tn
    → IsBounded (telnet_feed tn bs out_cap).tn × (length (telnet_feed tn bs out_cap).out ≤ out_cap)
unfolding telnet_feed
telnet_feed-IsBounded tn bs out_cap h = feed_from-IsBounded bs out_cap _ (omega arith) h
