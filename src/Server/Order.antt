-- ===== src/Server/Order.antt =====
-- lab4/server-mt.cpp: which connections the workers take, and in which order.
use cs333_os_labs.Prelude.{List, [], ℕ, ◌++◌}
use cs333_os_labs.Server.{Reaches, Server, at_start, onward}
use cs333_os_labs.Server.Passes.{Passes, came, went}

-- The connections of a run, in the order in which they were accepted.
abbrev pub accepted : {s t : Server} → Reaches s t → List ℕ
accepted at_start = []
accepted (onward r e q) = accepted r ++ came e

-- The connections that workers have taken, in the order in which they took them.
abbrev pub taken : {s t : Server} → Reaches s t → List ℕ
taken at_start = []
taken (onward {t = t} r e q) = taken r ++ went e t
