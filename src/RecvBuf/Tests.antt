-- ===== src/RecvBuf/Tests.antt =====
-- The tracker on a few numbers.
use nova_net.Prelude.{◌≡◌, [], ◌∷◌}
use nova_net.RecvBuf.{nn_recv_buf_exists}
use nova_net.RecvBuf.History.{record_all, latest, exists-latest}

exists-latest_example :
    nn_recv_buf_exists (record_all (259 ∷ 4 ∷ 3 ∷ [])) 3 ≡ latest (259 ∷ 4 ∷ 3 ∷ []) 3
exists-latest_example = exists-latest (259 ∷ 4 ∷ 3 ∷ []) 3
