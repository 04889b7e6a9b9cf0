-- ===== src/Storage/Tests.antt =====
-- The theorem on a file read through the virtual file system, at a disk that boots.
use mnes_hrel.Common.{◌≡◌, refl, none, some, [], ◌∷◌, arith, Outcome, returned, and_then}
use mnes_hrel.Fat.Tests.Sample.{partition}
use mnes_hrel.Fat.Tests.Dirs.{no_entry}
use mnes_hrel.Vfs.{FsDriver, Vfs}
use mnes_hrel.Vfs.Files.{find_free, emptied, vfsfopen, vfsfread}
use mnes_hrel.Storage.{World, Heap, mount_device}
use mnes_hrel.Storage.Boot.{BootBrings, mount_device-BootBrings}
use mnes_hrel.Storage.Disk.{
  boot_disk, boot_device, boot_path, boot_disk-IsBuffer, boot_read-ReadsBlocks, boot_device-Serves,
  boot_partition, boot_IsFat32, boot_HasFile,
}

-- The state at the start: nothing is mounted, and nothing is open.
abbrev first_world : World
first_world = record {
  files = λ _. none;
  dirs = λ _. none;
  rdir = no_entry;
  memory = λ _. 0;
  over = λ v. v;
}

abbrev first_heap : Heap
first_heap = record {
  malloc = λ _. 4096;
  fresh = λ _. 0;
  fresh_dirent = no_entry;
  rdir_at = 64;
  stat_over = λ size v. record v { firstdatalba = size };
}

abbrev no_driver : FsDriver (Outcome World)
no_driver = record {
  fsopendir = λ path o. (0, o);
  fsclosedir = λ dir o. (0, o);
  fsrewinddir = λ dir o. o;
  fsreaddir = λ dir o. (0, o);
  fsopenfile = λ path o. (0, o);
  fsreadfile = λ ptr size filemeta o. (0, o);
  fsclosefile = λ filemeta o. (0, o);
  fsfstat = λ filemeta pstat o. (0, o);
}

abbrev first_vfs : Vfs (Outcome World)
first_vfs = record {
  vfs_mfs = 0;
  node = λ _. record { mountpath = []; vfs_driver = no_driver; prev = 0; next = 0 };
  vfs_open_dirs = λ _. emptied;
  vfs_open_files = λ _. emptied;
  world = returned first_world;
}

first_slot : find_free 61 first_vfs.vfs_open_files 3 ≡ some 3
unfolding find_free
first_slot = refl

-- 600 bytes of the file "/A/ROM", at address 8192.
mount_device-BootBrings_example :
    BootBrings boot_device boot_disk partition
      (2 ∷ 3 ∷ [])
      (λ _. 0)
      8192
      600
      (and_then (mount_device first_heap 4 (λ k i. 0) boot_device 256 first_vfs) (λ (ok, after).
        and_then
          (vfsfopen 1 (some (b'/' ∷ boot_path)) (b'r' ∷ []) after)
          (λ (fd, opened). vfsfread 8192 1 600 fd opened)))
mount_device-BootBrings_example =
    mount_device-BootBrings boot_device boot_disk partition (λ k i. 0) boot_disk-IsBuffer
      boot_read-ReadsBlocks boot_device-Serves boot_partition boot_IsFat32 first_heap 4 256
      first_vfs first_world refl (λ e. absurd (omega arith)) refl (λ fs. refl) boot_HasFile 0 3 8192
      1 600 first_slot (λ e. absurd (omega arith)) refl refl (λ e. absurd (omega arith))
      (λ e. absurd (omega arith)) (omega arith)
