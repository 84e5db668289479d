-- ===== src/Proc/Files/Memory.antt =====
-- lab6/xv6-public/proc.c, fork and exit over the code of file.c, pipe.c and fs.c: the allocator's
-- invariant, which fileclose of the last end of a pipe concerns too.
use cs333_os_labs.Files.{Kernel}
use cs333_os_labs.Fs.{Volume}
use cs333_os_labs.Kalloc.FreeList.{IsSound}
use cs333_os_labs.Prelude.Outcome.{Outcome}
use cs333_os_labs.Prelude.Outcome.Keeps.{Keeps}

-- The loops of the file system that these calls go through end; nothing else is asked of a volume.
abbrev AnyVolume : Volume → Type 0
AnyVolume v = Unit

abbrev SoundMemory : Kernel → Type 0
SoundMemory k = IsSound k.mem
