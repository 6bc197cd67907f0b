-- ===== src/Mcp/Store/Examples.antt =====
-- The theorem on the session store at three starts with a limit of two.
use agentrun.Prelude.{◌≤◌, refl, bytes, List, [], ◌∷◌, length, keep, arith}
use agentrun.Mcp.Store.{Operation, starts, stops, is_recent, new_session_store, run}
use agentrun.Mcp.Store.Limits.{run-limits}

abbrev three_starts : List Operation
three_starts =
    starts 1 (bytes "mcp_a") (bytes "claude")
    ∷ starts 2 (bytes "mcp_b") (bytes "codex")
    ∷ stops (bytes "mcp_a")
    ∷ starts 5 (bytes "mcp_c") (bytes "claude")
    ∷ []

run-limits_example :
    (length (run three_starts ([], new_session_store 2)).1.sessions ≤ 2)
    × (length (keep (is_recent 7) (run three_starts ([], new_session_store 2)).0) ≤ 10)
run-limits_example = run-limits 2 7 three_starts refl (omega arith)
