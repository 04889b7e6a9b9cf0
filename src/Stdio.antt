-- ===== src/Stdio.antt =====
-- kernel/src/stdio.c: the calls that the C library makes, over the virtual file system and the console.
pub mod Descriptors
use mnes_hrel.Common.{
  ℕ, zero, suc, ◌%◌, Bool, ◌||◌, Option, some, ltb, leb, if◌then◌else◌, minus_one, Outcome,
  returned, fault, runs_on, and_then, Text, [], ◌∷◌,
}
use mnes_hrel.Vfs.{Vfs}
use mnes_hrel.Vfs.Files.{vfsfopen, vfsfread, vfsfclose, vfsfstat}
use mnes_hrel.Console.{Console, console_write}

-- `fd < 3` for an `int`: the standard streams, and negative numbers.
abbrev pub is_standard : ℕ → Bool
is_standard fd = ltb fd 3 || leb 2147483648 fd

module _ (font8x8_basic : ℕ → ℕ → ℕ) (one_shifted_back : ℕ) where
  -- The loop over the characters.
  unfoldable pub write_each : Text → Console → Outcome Console
  unfolding console_write
  write_each [] s = returned s
  write_each (c ∷ buffer) s =
      and_then (console_write font8x8_basic one_shifted_back c s) (λ after. write_each buffer after)

  -- `_write`: the result is 0, however much was written.
  unfoldable pub stdio_write : ℕ → Text → Console → Outcome (ℕ × Console)
  unfolding write_each
  stdio_write fd buffer s =
      if is_standard fd
      then and_then (write_each buffer s) (λ after. returned (0, after))
      else returned (0, s)

  -- `putchar`.
  unfoldable pub putchar : ℕ → Console → Outcome (ℕ × Console)
  unfolding console_write
  putchar c s =
      and_then (console_write font8x8_basic one_shifted_back (c % 256) s)
        (λ after. returned (c, after))

module _ {W : Type 0} where
  -- `_read`.
  unfoldable pub stdio_read : ℕ → ℕ → ℕ → Vfs W → Outcome (ℕ × Vfs W)
  unfolding vfsfread
  stdio_read fd buf cnt s = if is_standard fd then returned (0, s) else vfsfread buf cnt 1 fd s

  -- `_close`.
  unfoldable pub stdio_close : ℕ → Vfs W → Outcome (ℕ × Vfs W)
  unfolding vfsfclose
  stdio_close fd s = if is_standard fd then returned (minus_one, s) else vfsfclose fd s

  -- `_open`, which ignores its flags and its mode.
  unfoldable pub stdio_open : ℕ → Option Text → Vfs W → Outcome (ℕ × Vfs W)
  unfolding vfsfopen
  stdio_open fuel file s = vfsfopen fuel file (b'r' ∷ []) s

  -- `_fstat`. Its argument `pstat` is overwritten with `s_ifchr` or `s_ifblk`, constants of the C
  -- library, and goes on as a pointer; `file_of` is the descriptor in the library's FILE at that address.
  unfoldable pub stdio_fstat : ℕ → ℕ → (ℕ → ℕ) → ℕ → Vfs W → Outcome (ℕ × Vfs W)
  unfolding vfsfstat
  stdio_fstat s_ifchr s_ifblk file_of fd s =
      vfsfstat (file_of fd) (if is_standard fd then s_ifchr else s_ifblk) s

-- `_isatty`: the result, and the `errno` then, `enotty` of the C library.
unfoldable pub stdio_isatty : ℕ → ℕ → ℕ × ℕ
stdio_isatty enotty fd = (minus_one, enotty)

-- `_lseek`: no file is moved.
unfoldable pub stdio_lseek : ℕ → ℕ → ℕ → ℕ
stdio_lseek fildes offset whence = minus_one

-- `_sbrk`, for a number of rounds of its loop.
unfoldable pub stdio_sbrk : ℕ → ℕ → Outcome ℕ
stdio_sbrk zero incr = runs_on
stdio_sbrk (suc fuel) incr = stdio_sbrk fuel incr

-- `_exit`, which comes back.
unfoldable pub stdio_exit : ℕ → Unit {0}
stdio_exit status = tt

-- `_kill`.
unfoldable pub stdio_kill : Unit {0} → Unit {0}
stdio_kill nothing = tt

-- `_getpid`.
unfoldable pub stdio_getpid : Unit {0} → ℕ
stdio_getpid nothing = 0
