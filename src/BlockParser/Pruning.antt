-- ===== src/BlockParser/Pruning.antt =====
-- DeleteBlockInfo in parserSubMode: what the last 20 numbers keep, and what happens below number 20.
use das_multi_device.BlockParser.Healthy.{Healthy}
