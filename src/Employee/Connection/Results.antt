-- ===== src/Employee/Connection/Results.antt =====
-- The rounds of the employee's connection neither fault nor lose a result.
use e19_4yp_voluntary_comput.Prelude.{Bool, List, All}
use e19_4yp_voluntary_comput.Employee.Connection.{Activity}
use e19_4yp_voluntary_comput.Employee.Connection.Messages.{Safe}

-- Rounds whose activities are all safe.
abbrev pub AllSafe : List (Activity × Bool) → Type 0
AllSafe rounds = All (λ r. Safe r.0) rounds
