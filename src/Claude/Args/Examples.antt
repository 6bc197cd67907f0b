-- ===== src/Claude/Args/Examples.antt =====
-- The theorems on the arguments of a Claude subprocess at a concrete session.
use agentrun.Prelude.{◌≡◌, bytes, true, some, [], ◌∷◌, All, refl, str_eq}
use agentrun.Session.{Session}
use agentrun.OptionValues.{opt_hitl, starts_with_dash}
use agentrun.CommandLine.{positionals, is_argument}
use agentrun.Claude.Args.{Backend, opt_resume_id, stream_args}
use agentrun.Claude.Args.Built.{claude_grammar}
use agentrun.Claude.Args.Reads.{stream_args-reads}

abbrev backend : Backend
backend = record { binary = bytes "claude"; partial_messages = true }

abbrev resumed : Session
resumed = record {
  id = bytes "s";
  cwd = bytes "/";
  model = bytes "opus";
  prompt = [];
  options = (opt_resume_id, bytes "abc") ∷ (opt_hitl, bytes "off") ∷ [];
  env = [];
}

stream_args-reads_example :
    (positionals claude_grammar (stream_args backend resumed).1 ≡ some [])
    × All (λ a. is_argument a ≡ true) (stream_args backend resumed).1
unfolding starts_with_dash agentrun.Prelude.lookup str_eq
stream_args-reads_example = stream_args-reads backend resumed refl
