-- ===== src/Fetch/Calls.antt =====
-- The three calls that fetch, in OdbcStatement.cpp: they answer alike where they may, and their order does
-- not matter for the rows of a cursor that goes forward.
