-- ===== src/Sillad/ConnTest/Tests.antt =====
-- The connection test with concrete payloads.
use geph.Base.{ℕ, ◌≡◌, List, [], ◌∷◌, ◌++◌, arith}
use geph.Sillad.ConnTest.{conn_handed, dial, echo_loop}
use geph.Sillad.ConnTest.RoundTrip.{flatten, script, dial-echo_loop}
use geph.Sillad.ConnTest.Echoes.{IsEcho, echo_loop-IsEcho}

abbrev payloads : List (List ℕ)
payloads = (1 ∷ 2 ∷ 3 ∷ []) ∷ (4 ∷ []) ∷ []

dial-echo_loop_example :
    (dial payloads ((echo_loop 3 (script payloads ++ (7 ∷ []))).written ++ (8 ∷ []))
      ≡ record { written = script payloads; outcome = conn_handed (8 ∷ []) })
    × (echo_loop 3 ((dial payloads (flatten payloads ++ (8 ∷ []))).written ++ (7 ∷ []))
        ≡ record { written = flatten payloads; outcome = conn_handed (7 ∷ []) })
dial-echo_loop_example =
    dial-echo_loop payloads (7 ∷ []) (8 ∷ []) 3
      ((omega arith, omega arith), ((omega arith, omega arith), tt)) (omega arith)

-- A ping of one byte, and one that is cut.
echo_loop-IsEcho_example :
    IsEcho (0 ∷ 1 ∷ 9 ∷ 0 ∷ 2 ∷ 7 ∷ []) (echo_loop 7 (0 ∷ 1 ∷ 9 ∷ 0 ∷ 2 ∷ 7 ∷ []))
echo_loop-IsEcho_example =
    echo_loop-IsEcho 7 (0 ∷ 1 ∷ 9 ∷ 0 ∷ 2 ∷ 7 ∷ []) (omega arith)
      (omega arith, (omega arith, (omega arith, (omega arith, (omega arith, (omega arith, tt))))))
