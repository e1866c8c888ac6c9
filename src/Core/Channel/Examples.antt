-- ===== src/Core/Channel/Examples.antt =====
-- A transfer of two headers and two packets of data.
use librespot.Base.{
  ℕ, ◌≡◌, refl, true, false, List, [], ◌∷◌, ◌++◌, map, none, some, suc, ◌+◌, length, arith,
}
use librespot.Core.Channel.{header, closed, ready, next_seq}
use librespot.Core.Channel.Stream.{headers_packet, polls, data_of, header_of, transfer, polls_lem}

next_seq_wraps : next_seq 65535 ≡ (65535, 0)
unfolding next_seq
next_seq_wraps = refl

abbrev two_headers : List (ℕ × List ℕ)
two_headers = (3, 1 ∷ 2 ∷ []) ∷ (4, []) ∷ []

abbrev two_chunks : List (ℕ × List ℕ)
two_chunks = (9, 7 ∷ 8 ∷ []) ∷ (9, 6 ∷ []) ∷ []

polls_example :
    polls
      (length two_headers + suc (length two_chunks))
      (transfer (header []) true ((9, headers_packet two_headers) ∷ two_chunks ++ (9, []) ∷ []))
    ≡ some (
      map header_of two_headers ++ map data_of two_chunks ++ ready none ∷ [],
      transfer closed false [],
    )
polls_example =
    polls_lem two_headers two_chunks 9 9 true [] ((omega arith), ((omega arith), tt))
      ((refl, λ e. cc), ((refl, λ e. cc), tt)) refl refl
