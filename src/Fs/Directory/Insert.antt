-- ===== src/Fs/Directory/Insert.antt =====
-- lab6/xv6-public/fs.c, dirlink: where a new entry goes.
use cs333_os_labs.Fs.Directory.{dirent_inum}
use cs333_os_labs.Fs.Directory.Lookup.{entry}
use cs333_os_labs.Prelude.{if◌then◌else◌, suc, zero, ℕ, ◌+◌, ◌==◌}

-- The first entry that is not in use among the `n` from `k` on, or the one after them.
abbrev pub first_free : ℕ → ℕ → (ℕ → ℕ) → ℕ
first_free zero k c = k
first_free (suc n) k c =
    let rest = first_free n (k + 1) c in if dirent_inum (entry c k) == 0 then k else rest
