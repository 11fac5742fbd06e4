-- ===== src/Upload/Transfer/Order.antt =====
-- The order of the transfers: the 8051 is held in reset, written, and let go only when all is written.
use midex_class_firmware.Base.{◌≡◌, ◌⊎◌, Bool, true, false, List, [], ◌∷◌, ◌++◌, concat_map, Each}
use midex_class_firmware.Upload.{FwRecord}
use midex_class_firmware.Upload.Transfer.{Transfer, Reply}
use midex_class_firmware.Upload.Transfer.Taken.{hold, go, AllTaken, IsCutShort, IsGone}
use midex_class_firmware.Upload.Transfer.Chunks.{written, image, IsChunk}

module _ (reply : List Transfer → Transfer → Reply) where
  -- What a run of the upload has sent: the hold, chunks, and then nothing, where one of these was not
  -- taken; or the go behind the hold and the chunks of the whole image, all taken. It reports success
  -- just if the go came about.
  pub record Uploaded (rs : List FwRecord) (out : Bool × List Transfer) : Type 0 where
    pub chunks : List Transfer
    pub sized : Each IsChunk chunks
    pub ending :
        ((out.0 ≡ false) × (out.1 ≡ hold ∷ chunks) × IsCutShort reply [] (hold ∷ chunks))
        ⊎ ((out.1 ≡ hold ∷ chunks ++ (go ∷ []))
            × AllTaken reply [] (hold ∷ chunks)
            × (concat_map written chunks ≡ concat_map image rs)
            × (((out.0 ≡ true) × IsGone reply (hold ∷ chunks))
                ⊎ ((out.0 ≡ false) × ¬ IsGone reply (hold ∷ chunks))))
