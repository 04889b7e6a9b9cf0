-- ===== src/Vfs/Tests.antt =====
-- Two mounts of a small driver, and the theorems on the virtual file system at them.
use mnes_hrel.Common.{
  ℕ, ◌+◌, ◌≡◌, refl, some, List, ◌==◌, if◌then◌else◌, update, returned, runs_on, and_then, Text, [],
  ◌∷◌, strcmp, strncmp, drop, arith, and_then,
}
use mnes_hrel.Vfs.{FsDriver, MountNode, Vfs, vfs_mount}
use mnes_hrel.Vfs.Files.{find_free, filled, emptied, vfsfopen, vfsfclose, on_slot}
use mnes_hrel.Vfs.Dirs.{find_dir, opendir, closedir}
use mnes_hrel.Stdio.{stdio_open, stdio_close}
use mnes_hrel.Stdio.Descriptors.{stdio_open-stdio_close}
use mnes_hrel.Vfs.Opening.{Mounts, find_file, opened, vfsfopen-find_file}
use mnes_hrel.Vfs.Descriptor.{Found, vfsfopen-vfsfclose}
use mnes_hrel.Vfs.Mounting.{Linked, vfs_mount-known}
use mnes_hrel.Vfs.Listing.{find_mount, listed, opendir-find_mount}
use mnes_hrel.Vfs.Directory.{FoundDir, opendir-closedir}
use mnes_hrel.Vfs.Session.{Call, Steps, run, Steps-kept}

-- A driver with the one file or directory `name`, under the handle `id`. It counts its calls.
abbrev driver_of : Text → ℕ → FsDriver ℕ
driver_of name id = record {
  fsopendir = λ path w. ((if strcmp path name then id else 0), w + 1);
  fsclosedir = λ dir w. (0, w + 1);
  fsrewinddir = λ dir w. w + 1;
  fsreaddir = λ dir w. (dir + 1, w + 1);
  fsopenfile = λ path w. ((if strcmp path name then id else 0), w + 1);
  fsreadfile = λ ptr size file w. (size, w + 1);
  fsclosefile = λ file w. (0, w + 1);
  fsfstat = λ file pstat w. (0, w + 1);
}

abbrev card : FsDriver ℕ
card = driver_of (b'a' ∷ []) 7

abbrev disk : FsDriver ℕ
disk = driver_of (b'b' ∷ []) 9

abbrev card_node : MountNode ℕ
card_node = record { mountpath = b'/' ∷ b'c' ∷ []; vfs_driver = card; prev = 0; next = 2 }

abbrev disk_node : MountNode ℕ
disk_node = record { mountpath = b'/' ∷ []; vfs_driver = disk; prev = 1; next = 0 }

-- The mounts "/c" and "/" with the descriptors 0, 1, 2 and 3 taken.
abbrev sample : Vfs ℕ
sample = record {
  vfs_mfs = 1;
  node = λ p. if p == 1 then card_node else disk_node;
  vfs_open_dirs = λ i. emptied;
  vfs_open_files = update (λ i. emptied) 3 (filled 5 disk);
  world = 0;
}

abbrev mount_list : List (MountNode ℕ)
mount_list = card_node ∷ disk_node ∷ []

abbrev path_b : Text
path_b = b'/' ∷ b'b' ∷ []

sample-Mounts : Mounts sample.node path_b 1 mount_list
sample-Mounts =
    Mounts.mounted (omega arith) (omega arith)
      (Mounts.mounted (omega arith) (omega arith) Mounts.ended)

vfsfopen-find_file_example :
    vfsfopen 3 (some path_b) (b'r' ∷ []) sample
    ≡ returned
        (opened sample (find_free 61 sample.vfs_open_files 3) (find_file path_b mount_list 0))
vfsfopen-find_file_example =
    vfsfopen-find_file 3 path_b sample mount_list sample-Mounts (omega arith)

-- The file that the second driver finds gets the descriptor 4.
opened_test :
    opened sample (find_free 61 sample.vfs_open_files 3) (find_file path_b mount_list 0) ≡ (
      4,
      record sample { vfs_open_files = update sample.vfs_open_files 4 (filled 9 disk); world = 2 },
    )
unfolding find_free strcmp drop
opened_test = refl

sample-Found : Found path_b mount_list sample 4 9 disk 2
unfolding find_free strcmp drop
sample-Found = record { mounts = sample-Mounts; slot = refl; found = refl; set = omega arith }

vfsfopen-vfsfclose_example :
    and_then (vfsfopen 3 (some path_b) (b'r' ∷ []) sample) (λ r. vfsfclose r.0 r.1)
    ≡ returned (0, record sample { world = 3 })
vfsfopen-vfsfclose_example = vfsfopen-vfsfclose sample-Found 3 (omega arith)

-- Only the mount "/c".
abbrev one_mount : Vfs ℕ
one_mount = record sample { node = λ p. record card_node { next = 0 } }

find_free_test : find_free 61 one_mount.vfs_open_files 3 ≡ some 4
unfolding find_free
find_free_test = refl

sample-Linked : Linked sample.node 1 mount_list
sample-Linked = Linked.linked (omega arith) (Linked.linked (omega arith) Linked.ended)

vfs_mount-known_example : vfs_mount 9 3 (some (b'e' ∷ [])) (some card) sample ≡ runs_on
unfolding strcmp
vfs_mount-known_example =
    vfs_mount-known 9 3 (b'e' ∷ []) card sample mount_list (omega arith) sample-Linked (omega arith)

opendir-find_mount_example :
    opendir 3 (some path_b) sample
    ≡ returned (listed sample (find_dir 16 sample.vfs_open_dirs 0 0) (find_mount path_b mount_list))
opendir-find_mount_example =
    opendir-find_mount 3 path_b sample mount_list sample-Mounts (omega arith)

sample-FoundDir : FoundDir path_b mount_list sample 0 9 disk (b'b' ∷ []) 1
unfolding find_dir strcmp strncmp drop
sample-FoundDir = record {
  mounts = sample-Mounts;
  slot = refl;
  free = refl;
  found = refl;
  answer = refl;
  set = omega arith;
  fresh = λ j. omega arith;
}

opendir-closedir_example :
    and_then (opendir 3 (some path_b) sample) (λ r. closedir r.0 r.1)
    ≡ returned (0, record sample { world = 2 })
opendir-closedir_example = opendir-closedir sample-FoundDir 3 (omega arith)

-- The descriptor 3 is in use, and a file is opened and closed beside it.
abbrev opened_b : Vfs ℕ
opened_b = record sample {
  vfs_open_files = update sample.vfs_open_files 4 (filled 9 disk);
  world = 2;
}

closed_lem :
    vfsfclose 4 opened_b
    ≡ returned (
      0,
      record opened_b { vfs_open_files = update opened_b.vfs_open_files 4 emptied; world = 3 },
    )
unfolding vfsfclose on_slot
closed_lem = refl

two_calls :
    Steps 3 sample
      (record opened_b { vfs_open_files = update opened_b.vfs_open_files 4 emptied; world = 3 })
unfolding run find_free strcmp drop
two_calls =
    Steps.step 3 4 (Call.open_file (some path_b) (b'r' ∷ [])) refl
      (vfsfopen-find_file 3 path_b sample mount_list sample-Mounts (omega arith))
      (Steps.step 3 0 (Call.close_file 4) refl closed_lem Steps.done)

Steps-kept_example : update opened_b.vfs_open_files 4 emptied 3 ≡ sample.vfs_open_files 3
Steps-kept_example = Steps-kept 3 two_calls refl

stdio_open-stdio_close_example :
    and_then (stdio_open 3 (some path_b) sample) (λ r. stdio_close r.0 r.1)
    ≡ returned (0, record sample { world = 3 })
stdio_open-stdio_close_example = stdio_open-stdio_close sample-Found 3 (omega arith)
