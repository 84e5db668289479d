-- ===== src/Tests/Files.antt =====
-- A small disk with one file, paths, and the input of grep.
use cs333_os_labs.Fs.{Inode, Volume}
use cs333_os_labs.Fs.Blocks.{balloc}
use cs333_os_labs.Fs.Blocks.Allocation.{Allocates, balloc_lem}
use cs333_os_labs.Fs.Content.Blockmap.{IsAllocated}
use cs333_os_labs.Fs.Directory.{dirlookup, namecmp_is_zero, same_from}
use cs333_os_labs.Fs.Directory.Lookup.{dirlookup_lem, entry, entry_inode, first_match}
use cs333_os_labs.Fs.Inodes.{iget}
use cs333_os_labs.Fs.Inodes.Cache.{IGets, iget_lem}
use cs333_os_labs.Fs.Paths.{skipelem}
use cs333_os_labs.Fs.Paths.Elements.{Skips, skipelem_lem}
use cs333_os_labs.Fs.Transfer.{Devsw}
use cs333_os_labs.Fs.Transfer.Array.{content}
use cs333_os_labs.Fs.Transfer.RoundTrip.{ReadsBack, readi-writei}
use cs333_os_labs.Grep.{match}
use cs333_os_labs.Grep.Regex.{HasMatch, match_lem}
use cs333_os_labs.Prelude.{
  List, [], arith, if◌then◌else◌, ltb, none, refl, replicate, some, true, ℕ, ◌+◌, ◌==◌, ◌||◌, ◌↔◌,
  ◌∷◌, ◌≡◌,
}

abbrev no_devices : Devsw
no_devices major = none

-- A file of three bytes, in block 5.
abbrev small_file : Inode
small_file = record {
  dev = 1;
  inum = 2;
  ref = 1;
  lock = record { locked = true; pid = 1 };
  valid = true;
  copy = record { type = 2; major = 0; minor = 0; nlink = 1; size = 3; addrs = 5 ∷ replicate 12 0 };
}

abbrev small_volume : Volume
small_volume = record {
  sb = record { size = 10; nblocks = 5; ninodes = 4 };
  used = λ b. ltb b 6;
  dinodes = λ n. small_file.copy;
  bytes = λ b k. b + k;
  icache = small_file ∷ [];
}

small_file-IsAllocated : IsAllocated small_volume.bytes small_file.copy.addrs 1
small_file-IsAllocated = record {
  in_range = omega arith;
  present = λ a l. ground arith;
  indirect = λ l. absurd (omega arith);
  distinct = λ a b l m ne. absurd (ne (omega arith));
  apart = λ a l. ground arith;
}

readi-writei_example :
    (w : Volume) × ReadsBack no_devices 0 small_volume small_file 1 (7 ∷ 8 ∷ 9 ∷ []) w
readi-writei_example =
    readi-writei no_devices 0 1 small_volume small_file refl (omega arith) small_file-IsAllocated
      (omega arith) 1 (7 ∷ 8 ∷ 9 ∷ []) (omega arith) (omega arith)

iget_lem_example : IGets 1 2 small_volume (iget 1 2 small_volume)
iget_lem_example = iget_lem 1 2 small_volume

balloc_lem_example : Allocates small_volume (balloc small_volume)
balloc_lem_example = balloc_lem small_volume

-- The path "a//b".
abbrev two_elements : List ℕ
two_elements = b'a' ∷ b'/' ∷ b'/' ∷ b'b' ∷ []

skipelem_lem_example : Skips two_elements (skipelem two_elements)
skipelem_lem_example = skipelem_lem two_elements

-- The pattern "^a.*b".
abbrev starred : List ℕ
starred = b'^' ∷ b'a' ∷ b'.' ∷ b'*' ∷ b'b' ∷ []

match_lem_example :
    (match starred (b'a' ∷ b'c' ∷ b'b' ∷ []) ≡ true) ↔ HasMatch starred (b'a' ∷ b'c' ∷ b'b' ∷ [])
match_lem_example = match_lem starred (b'a' ∷ b'c' ∷ b'b' ∷ [])

-- Two reads: one line and the start of the next, and its end.
abbrev two_reads : List (List ℕ)
two_reads = (b'a' ∷ b'b' ∷ 10 ∷ b'a' ∷ []) ∷ (b'c' ∷ 10 ∷ []) ∷ []

-- A directory of three entries, in block 6: "a", a free one, and "b".
abbrev small_dir : Inode
small_dir = record {
  dev = 1;
  inum = 1;
  ref = 1;
  lock = record { locked = true; pid = 1 };
  valid = true;
  copy = record {
    type = 1;
    major = 0;
    minor = 0;
    nlink = 1;
    size = 48;
    addrs = 6 ∷ replicate 12 0;
  };
}

abbrev dir_bytes : ℕ → ℕ
dir_bytes k = if k == 0 || k == 32 then 2 else if k == 2 then b'a' else if k == 34 then b'b' else 0

abbrev dir_volume : Volume
dir_volume = record small_volume {
  bytes = λ b k. if b == 6 then dir_bytes k else 0;
  icache = small_dir ∷ small_file ∷ [];
}

small_dir-IsAllocated : IsAllocated dir_volume.bytes small_dir.copy.addrs 1
small_dir-IsAllocated = record {
  in_range = omega arith;
  present = λ a l. ground arith;
  indirect = λ l. absurd (omega arith);
  distinct = λ a b l m ne. absurd (ne (omega arith));
  apart = λ a l. ground arith;
}

dirlookup_lem_example :
    dirlookup no_devices 0 (b'b' ∷ []) dir_volume
    ≡ entry_inode 1
        (content dir_volume.bytes small_dir.copy.addrs)
        (first_match 3 0 (b'b' ∷ []) (content dir_volume.bytes small_dir.copy.addrs))
        dir_volume
dirlookup_lem_example =
    dirlookup_lem no_devices 0 1 dir_volume small_dir refl refl small_dir-IsAllocated (omega arith)
      3 (b'b' ∷ []) refl

-- The entry that is found is the third.
third_entry : first_match 3 0 (b'b' ∷ []) (content dir_volume.bytes small_dir.copy.addrs) ≡ some 2
unfolding entry namecmp_is_zero same_from
third_entry = refl
