-- ===== src/Flow/Table/Search.antt =====
-- The lookups of the flow table by the search of `std::map` in its tree.
use simple_sdn.StdMap.Tree.{Tree}
