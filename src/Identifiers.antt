-- ===== src/Identifiers.antt =====
-- src/domain/domain.cpp, `identifier_source`: the server's ids, 64-bit and never issued twice.
use stream_labs_test_assingm.Base.{
  ℕ, ◌+◌, ◌-◌, ◌^◌, ◌<◌, ◌≡◌, ◌⊎◌, Option, none, some, ◌==◌, if◌then◌else◌, arith,
}

-- `next_`; 0 when every id has been issued.
pub record IdentifierSource : Type 0 where
  pub upcoming : ℕ

unfoldable pub next : IdentifierSource → IdentifierSource × Option ℕ
next source = if source.upcoming == 0 then (source, none) else (
  record source { upcoming = if source.upcoming == 2 ^ 64 - 1 then 0 else source.upcoming + 1 },
  some source.upcoming,
)

-- The first id that has not been issued: 2 ^ 64 once they are exhausted.
abbrev pub horizon : IdentifierSource → ℕ
horizon source = if source.upcoming == 0 then 2 ^ 64 else source.upcoming

abbrev pub IsWord : IdentifierSource → Type 0
IsWord source = source.upcoming < 2 ^ 64

-- What a call of `next` does.
abbrev pub IssuesNext : IdentifierSource → Type 0
IssuesNext source =
    ((horizon source ≡ 2 ^ 64) × ((next source).1 ≡ none) × ((next source).0 ≡ source))
    ⊎ ((0 < horizon source)
        × ((next source).1 ≡ some (horizon source))
        × (horizon (next source).0 ≡ horizon source + 1)
        × IsWord (next source).0)

-- Either the ids are exhausted and stay so, or the id issued is the horizon, a nonzero 64-bit
-- number, and the horizon moves just past it, also when the largest id is issued.
pub next_lem : (source : IdentifierSource) → IsWord source → IssuesNext source
unfolding next
next_lem source w = ground arith
