-- ===== src/Producer/Channel.antt =====
-- block_producer.go: the channel of new blocks, which keeps the newest when nobody reads it.
use shardmatrix.Prelude.{◌-◌, List, [], ◌∷◌, ok, err, Result, length, drop}
use shardmatrix.Storage.{Storage}
use shardmatrix.Types.{Block}
use shardmatrix.Interfaces.{TxPool}
use shardmatrix.Producer.{BlockProducer, ProducerError}
use shardmatrix.Producer.Making.{process_new_block}

-- The last ten elements, or fewer if there are not so many.
abbrev pub newest {ℓ} : {A : Type ℓ} → List A → List A
newest xs = drop (length xs - 10) xs

abbrev pub if_sent : Result ProducerError (Unit {0}) → Block → List Block → List Block
if_sent (ok _) b rest = b ∷ rest
if_sent (err _) b rest = rest

module _ {S P M N : Type 0} (st : Storage S) (pool : TxPool P) where
  -- Calls of ProcessNewBlock, one for each block, and the blocks that were saved.
  unfoldable pub process_all : List Block → BlockProducer S P M N → BlockProducer S P M N
  process_all [] bp = bp
  process_all (b ∷ bs) bp = process_all bs (process_new_block st pool b bp).1

  unfoldable pub all_saved : List Block → BlockProducer S P M N → List Block
  all_saved [] bp = []
  all_saved (b ∷ bs) bp =
      let (r, bp') = process_new_block st pool b bp in if_sent r b (all_saved bs bp')
