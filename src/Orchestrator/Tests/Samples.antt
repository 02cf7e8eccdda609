-- ===== src/Orchestrator/Tests/Samples.antt =====
-- A tool server and characters for the runs.
use agent_exec_platform.Common.{
  ap, arith, leb, length, ℕ, zero, suc, false, [], ◌∷◌, Text, codes, none, ◌≡◌, refl,
}
use agent_exec_platform.Common.Outcome.{ok}
use agent_exec_platform.Orchestrator.Workbench.{Server, text_content}
use agent_exec_platform.Orchestrator.Slugs.{Characters}

-- A server that counts the calls it gets and answers each with a text.
abbrev pub counting : Server
counting = record {
  State = ℕ;
  Json = Text;
  call = λ tenant name arguments n.
      (ok (record { content = text_content (codes "done") ∷ []; is_error = false }), suc n);
  list = λ tenant n.
      (ok (record { name = codes "read"; description = none; input_schema = none } ∷ []), n);
  parameters_of = λ schema. codes "object";
  repr = λ name. name;
}

-- A number as so many ones.
abbrev pub ones : ℕ → Text
ones zero = []
ones (suc n) = 49 ∷ ones n

length-ones : (n : ℕ) → length (ones n) ≡ n
length-ones zero = refl
length-ones (suc n) = omega (arith, length-ones n)

pub ones_injective : (i j : ℕ) → ones i ≡ ones j → i ≡ j
ones_injective i j h = omega (arith, length-ones i, length-ones j, ap length h)

-- Letters and the underscore are word characters.
abbrev pub unary : Characters
unary = record { is_word = λ c. leb 97 c; is_digit = λ c. false; digits = λ n. ones n }
