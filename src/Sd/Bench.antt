-- ===== src/Sd/Bench.antt =====
-- A small interface with a card of high capacity, which keeps the laws that the theorems about
-- kernel/src/pl181.c rely on.
use mnes_hrel.Common.{
  ℕ, zero, suc, ◌%◌, ◌≡◌, refl, ap, bit_and, Bool, true, false, ◌&&◌, ◌==◌, if◌then◌else◌, List, [],
  ◌∷◌,
}
use mnes_hrel.Fat.Volume.Device.{from_block}
use mnes_hrel.Sd.{Register, Mmci}
use mnes_hrel.Sd.Card.{View, Card, Carries, Prompt, Delivers, words_from, EndFlags}
use mnes_hrel.Sd.Ignored.{Ignores}

abbrev pub disk : ℕ → ℕ
disk j = j % 256

-- The card knows the read command, and the commands of the search.
unfoldable pub bench_response : ℕ → ℕ
bench_response c =
    if c == 1096
    then 0x1AA
    else if c == 1143
    then 32
    else if c == 1129
    then 0x40FF8000
    else if c == 1091
    then 0x12340520
    else 0x900

unfoldable pub bench_card : Card
bench_card c a v = record {
  response = bench_response c;
  answered = true;
  length = v.length;
  ctrl = v.ctrl;
  words =
      if (c == 1105) && (v.length == 512) && (bit_and v.ctrl 3 == 3)
      then words_from (from_block disk a) 0 128
      else [];
}

pub data Flag : Type 0 where
  no_flag sent_flag came_flag late_flag : Flag

-- `left` is how many reads of the status a command goes on for.
pub record Bench : Type 0 where
  pub view : View
  pub argument : ℕ
  pub left : ℕ
  pub flag : Flag

unfoldable pub end_flag : ℕ → Bool → Flag
end_flag c answered =
    if bit_and c 64 == 0 then sent_flag else if answered then came_flag else late_flag

unfoldable pub bits : Flag → List ℕ → ℕ
bits no_flag [] = 0
bits sent_flag [] = 128
bits came_flag [] = 64
bits late_flag [] = 4
bits no_flag (_ ∷ _) = 2097152
bits sent_flag (_ ∷ _) = 2097280
bits came_flag (_ ∷ _) = 2097216
bits late_flag (_ ∷ _) = 2097156

unfoldable pub bench_status : Bench → ℕ × Bench
bench_status w = elim w.left [
  | zero ↦ (bits w.flag w.view.words, w)
  | suc n ↦ (2048, record w { left = n })
]

unfoldable pub bench_fifo : Bench → ℕ × Bench
bench_fifo w = elim w.view.words [
  | [] ↦ (0, w)
  | x ∷ xs ↦ (x, record w { view = record w.view { words = xs } })
]

unfoldable pub bench_write : Register → ℕ → Bench → Bench
bench_write Register.arg v w = record w { argument = v }
bench_write Register.data_length v w = record w { view = record w.view { length = v } }
bench_write Register.data_ctrl v w = record w { view = record w.view { ctrl = v } }
bench_write Register.clear v w = record w { flag = no_flag }
bench_write Register.cmd c w =
    let after = bench_card c w.argument w.view in
    if bit_and c 1024 == 0
    then w
    else record w { view = after; left = 2; flag = end_flag c after.answered }
bench_write _ v w = w

abbrev pub bench : Mmci Bench
bench = record {
  status = bench_status;
  response0 = λ w. (w.view.response, w);
  fifo = bench_fifo;
  write = bench_write;
}

pub record IsIdle (v : View) (w : Bench) : Type 0 where
  pub over : w.left ≡ 0
  pub shows : w.view ≡ v

pub record IsTold (a : ℕ) (v : View) (w : Bench) : Type 0 where
  pub over : w.left ≡ 0
  pub shows : w.view ≡ v
  pub told : w.argument ≡ a

pub record IsBusy (n c : ℕ) (v : View) (w : Bench) : Type 0 where
  pub going : w.left ≡ n
  pub shows : w.view ≡ v
  pub ends : w.flag ≡ end_flag c v.answered

bits-inactive : (f : Flag) (xs : List ℕ) → bit_and (bits f xs) 2048 ≡ 0
unfolding bits
bits-inactive no_flag [] = refl
bits-inactive sent_flag [] = refl
bits-inactive came_flag [] = refl
bits-inactive late_flag [] = refl
bits-inactive no_flag (_ ∷ _) = refl
bits-inactive sent_flag (_ ∷ _) = refl
bits-inactive came_flag (_ ∷ _) = refl
bits-inactive late_flag (_ ∷ _) = refl

bits-sent : (xs : List ℕ) → bit_and (bits sent_flag xs) 128 ≡ 128
unfolding bits
bits-sent [] = refl
bits-sent (_ ∷ _) = refl

bits-came : (xs : List ℕ) → bit_and (bits came_flag xs) 64 ≡ 64
unfolding bits
bits-came [] = refl
bits-came (_ ∷ _) = refl

bits-late : (xs : List ℕ) → bit_and (bits late_flag xs) 64 ≡ 0
unfolding bits
bits-late [] = refl
bits-late (_ ∷ _) = refl

bits-timed_out : (xs : List ℕ) → bit_and (bits late_flag xs) 4 ≡ 4
unfolding bits
bits-timed_out [] = refl
bits-timed_out (_ ∷ _) = refl

pub bits-empty : (f : Flag) → bit_and (bits f []) 2097152 ≡ 0
unfolding bits
bits-empty no_flag = refl
bits-empty sent_flag = refl
bits-empty came_flag = refl
bits-empty late_flag = refl

pub bits-filled : (f : Flag) (x : ℕ) (xs : List ℕ) → bit_and (bits f (x ∷ xs)) 2097152 ≡ 2097152
unfolding bits
bits-filled no_flag x xs = refl
bits-filled sent_flag x xs = refl
bits-filled came_flag x xs = refl
bits-filled late_flag x xs = refl

pub end_flag-EndFlags :
    (c : ℕ) (v : View) (xs : List ℕ) → EndFlags c v (bits (end_flag c v.answered) xs)
unfolding end_flag
end_flag-EndFlags c v xs = record {
  inactive = bits-inactive _ xs;
  sent = λ h. rw h (bits-sent xs);
  came = λ h e. rw h (rw e (bits-came xs));
  late = λ h e. rw h (rw e (bits-late xs));
  timed_out = λ h e. rw h (rw e (bits-timed_out xs));
}

unfoldable pub bench_carries : Carries bench bench_card 2
unfolding bench_status bench_fifo bench_write
bench_carries = record {
  Idle = IsIdle;
  Told = IsTold;
  Busy = IsBusy;
  keeps_length = λ v w x h. record {
    over = h.over;
    shows = ap (λ (u : View). record u { length = x }) h.shows;
  };
  keeps_ctrl =
      λ v w x h. record { over = h.over; shows = ap (λ (u : View). record u { ctrl = x }) h.shows };
  clears = λ v w h. record { over = h.over; shows = h.shows };
  tells = λ v w a h. record { over = h.over; shows = h.shows; told = refl };
  stays = λ v w a h. rw h.over (record { over = refl; shows = h.shows; told = h.told });
  starts = λ v w c a s h. rw s (record {
    going = refl;
    shows = rw (h.told, h.shows) refl;
    ends = rw (h.told, h.shows) refl;
  });
  polls = λ v w c n h. rw h.going (record { going = refl; shows = h.shows; ends = h.ends });
  no_flags =
      λ v w c n h. rw h.going (record { not_sent = refl; not_come = refl; not_timed_out = refl });
  rests = λ v w c h. rw h.going (record { going = refl; shows = h.shows; ends = h.ends });
  end_flags = λ v w c h. rw h.going (rw h.ends (end_flag-EndFlags c v w.view.words));
  idles = λ v w c h. record { over = h.going; shows = h.shows };
  looks = λ v w h. rw h.over (record { over = refl; shows = h.shows });
  empty = λ v w h e. rw h.over (rw h.shows (rw e (bits-empty w.flag)));
  gives = λ v w x xs h e f. rw h.over (rw h.shows (rw e refl));
  takes = λ v w x xs h e f. rw h.over (
      rw h.shows (
        rw e (record { over = refl; shows = ap (λ (u : View). record u { words = xs }) h.shows })));
  responds = λ v w h. ap (λ (u : View). u.response) h.shows;
  answers = λ v w h. h;
}

pub bench_card-Delivers : Delivers bench_card true 4 disk
unfolding bench_card
bench_card-Delivers = record {
  replies = λ v lba p. refl;
  brings = λ v lba p size on gone. rw size (rw on refl);
}

-- Its FIFO has the words at once.
pub bench_carries-Prompt : Prompt bench_carries
unfolding bench_carries bench_status
bench_carries-Prompt = record {
  filled = λ v w x xs h e. rw h.over (rw h.shows (rw e (bits-filled w.flag x xs)));
}

abbrev pub first_view : View
first_view = record { response = 0; answered = false; length = 0; ctrl = 0; words = [] }

abbrev pub first_bench : Bench
first_bench = record { view = first_view; argument = 0; left = 0; flag = no_flag }

cleared_bits : (xs : List ℕ) → bit_and (bits no_flag xs) 128 ≡ 0
unfolding bits
cleared_bits [] = refl
cleared_bits (_ ∷ _) = refl

-- A record without the flag set, with the number of reads that are left.
not_sent :
    (n : ℕ) (w : Bench)
    → w.flag ≡ no_flag
    → bit_and (bench_status (record w { left = n })).0 128 ≡ 0
unfolding bench_status
not_sent zero w e = rw e (cleared_bits w.view.words)
not_sent (suc n) w e = refl

stays_cleared :
    (n : ℕ) (w : Bench) → w.flag ≡ no_flag → (bench_status (record w { left = n })).1.flag ≡ no_flag
unfolding bench_status
stays_cleared zero w e = e
stays_cleared (suc n) w e = e

pub bench-Ignores : Ignores bench
unfolding bench_status bench_write
bench-Ignores = record {
  Cleared = λ w. w.flag ≡ no_flag;
  clears = λ w. refl;
  tells = λ w a h. h;
  looks = λ w h. stays_cleared w.left w h;
  drops = λ w c e h. rw e h;
  not_sent = λ w h. not_sent w.left w h;
}
