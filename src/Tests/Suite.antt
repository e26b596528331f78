-- ===== src/Tests/Suite.antt =====
-- The unit tests with an encoder that writes the identity alone.
use g_sierra.Common.{ℕ, ◌≡◌, refl, true, List, ◌∷◌, ◌++◌, replicate, codes}
use g_sierra.Common.Int.{pos}
use g_sierra.Node.{StrPtr, null, dangling, points_to}
use g_sierra.UnitTest.Suite.{Target, IsEncoder, run_suites, run_suites_pass}

abbrev members : StrPtr → List ℕ
members null = codes "}"
members dangling = codes "}"
members (points_to text) = codes "\"id\":\"" ++ (text ++ codes "\"}")

abbrev target : Target
target = record {
  uptime = 123456789;
  random_part1 = 0xcafe;
  random_part2 = 0xbeef;
  encode = λ node size. (pos 0, b'{' ∷ members node.id.str);
}

encoder : IsEncoder target.encode
encoder = record { json = λ node. members node.id.str; encodes = λ node text points short. refl }

run_suites_pass_example : run_suites target ≡ replicate 6 true
run_suites_pass_example = run_suites_pass target encoder
