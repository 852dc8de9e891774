-- ===== src/SeqBuf/Tests.antt =====
-- Operations on one slot.
use nova_net.Prelude.{◌≡◌, List, [], ◌∷◌}
use nova_net.SeqBuf.{Op, insert, delete, run, nn_seq_buf_exists}
use nova_net.SeqBuf.Laws.{present, exists-present}

abbrev script : List Op
script = delete 3 ∷ insert 259 ∷ insert 3 ∷ []

exists-present_example : nn_seq_buf_exists (run script) 259 ≡ present script 259
exists-present_example = exists-present script 259
