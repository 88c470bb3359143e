-- ===== src/Telnet/Tests.antt =====
-- Runs of src/telnet.c's model on concrete bytes, and its theorems at concrete inputs.
use mutineer.Prelude.{ℕ, ◌≤◌, ◌≡◌, refl, List, [], ◌∷◌, ◌++◌, length, arith}
use mutineer.Telnet.{
  TelnetState, Feed, st_data, telnet_feed, process_sb, set_window, iac, do', sb, se, telopt_echo,
}
use mutineer.Telnet.Bounds.{IsBounded, telnet_feed-IsBounded}
use mutineer.Telnet.Stream.{telnet_feed-append, telnet_feed-escape}

abbrev fresh : TelnetState
fresh = record {
  cols = 80;
  rows = 24;
  st = st_data;
  cmd = 0;
  sb_opt = 0;
  sb_buf = [];
  term_type = [];
}

abbrev start : Feed
start = record { tn = fresh; out = []; sent = [] }

-- "h", a window report of 255 by 50, "i"
abbrev session : List ℕ
session = b'h' ∷ iac ∷ sb ∷ 31 ∷ 0 ∷ 255 ∷ 255 ∷ 0 ∷ 50 ∷ iac ∷ se ∷ b'i' ∷ []

reads_session : telnet_feed fresh session 16 ≡ record {
  tn = record fresh { cols = 255; rows = 50; sb_buf = 31 ∷ 0 ∷ 255 ∷ 0 ∷ 50 ∷ [] };
  out = b'h' ∷ b'i' ∷ [];
  sent = [];
}
unfolding telnet_feed process_sb set_window
reads_session = refl

telnet_feed-IsBounded_example :
    IsBounded (telnet_feed fresh session 1).tn × (length (telnet_feed fresh session 1).out ≤ 1)
telnet_feed-IsBounded_example = telnet_feed-IsBounded fresh session 1 (record {
  sb_fits = omega arith;
  term_type_fits = omega arith;
  cols_pos = omega arith;
  cols_small = omega arith;
  rows_pos = omega arith;
  rows_small = omega arith;
})

abbrev first_read : Feed
first_read = telnet_feed fresh (b'h' ∷ iac ∷ []) 8

abbrev second_read : Feed
second_read = telnet_feed first_read.tn (do' ∷ telopt_echo ∷ b'i' ∷ []) 8

telnet_feed-append_example :
    telnet_feed fresh (b'h' ∷ iac ∷ do' ∷ telopt_echo ∷ b'i' ∷ []) 16 ≡ record {
      tn = second_read.tn;
      out = first_read.out ++ second_read.out;
      sent = first_read.sent ++ second_read.sent;
    }
telnet_feed-append_example =
    telnet_feed-append fresh (b'h' ∷ iac ∷ []) (do' ∷ telopt_echo ∷ b'i' ∷ []) 16 8 8 (omega arith)
      (omega arith) (omega arith)

telnet_feed-escape_example :
    telnet_feed fresh (7 ∷ 255 ∷ 255 ∷ 8 ∷ []) 16
    ≡ record { tn = fresh; out = 7 ∷ 255 ∷ 8 ∷ []; sent = [] }
telnet_feed-escape_example = telnet_feed-escape fresh (7 ∷ 255 ∷ 8 ∷ []) 16 refl (omega arith)

abbrev name : List ℕ
name = b'A' ∷ b'N' ∷ b'S' ∷ b'I' ∷ []
